-- ===== src/Auth/Tables.antt =====
-- The tables `users` and `sessions` of src/db.rs, and the statements on them. SQLite answers a
-- statement that breaks PRIMARY KEY, UNIQUE or FOREIGN KEY with an error, whose text is `conflict_text`
-- of the environment; other failures of the database are not modelled.
use cangling_update.Base.{
  ℕ, Bool, not, ◌||◌, List, [], ◌∷◌, ◌++◌, Option, none, some, if◌then◌else◌, length, any, keep,
  find, map,
}
use cangling_update.Text.{Text, text_eq}
use cangling_update.Errors.{internal, Result, ok, err}

pub record UserRow : Type 0 where
  pub id : Text
  pub username : Text
  pub password_hash : Text

pub record SessionRow : Type 0 where
  pub token : Text
  pub user_id : Text
  pub last_seen : ℕ
  pub created_at : ℕ

pub record Db : Type 0 where
  pub users : List UserRow
  pub sessions : List SessionRow

abbrev pub has_id : Text → UserRow → Bool
has_id id u = text_eq u.id id

abbrev pub has_name : Text → UserRow → Bool
has_name name u = text_eq u.username name

abbrev pub has_token : Text → SessionRow → Bool
has_token token s = text_eq s.token token

unfoldable pub user_count : Db → ℕ
user_count db = length db.users

unfoldable pub get_user_by_name : Db → Text → Option UserRow
get_user_by_name db name = find (has_name name) db.users

unfoldable pub get_user_by_id : Db → Text → Option UserRow
get_user_by_id db id = find (has_id id) db.users

unfoldable pub insert_user : Text → Db → UserRow → Result Db
insert_user conflict_text db u =
    if any (λ x. has_id u.id x || has_name u.username x) db.users
    then err (internal conflict_text)
    else ok (record db { users = db.users ++ u ∷ [] })

unfoldable pub create_session : Text → Db → ℕ → Text → Text → Result Db
create_session conflict_text db now token user_id =
    if any (has_token token) db.sessions || not (any (has_id user_id) db.users)
    then err (internal conflict_text)
    else ok (record db {
      sessions =
          db.sessions
          ++ record { token = token; user_id = user_id; last_seen = now; created_at = now } ∷ [];
    })

unfoldable pub session_user_id : Db → Text → Option (Text × ℕ)
session_user_id db token = elim (find (has_token token) db.sessions) [
  | none ↦ none
  | some s ↦ some (s.user_id, s.last_seen)
]

abbrev pub touch : Text → ℕ → SessionRow → SessionRow
touch token now s = if has_token token s then record s { last_seen = now } else s

unfoldable pub touch_session : Db → ℕ → Text → Db
touch_session db now token = record db { sessions = map (touch token now) db.sessions }

unfoldable pub delete_session : Db → Text → Db
delete_session db token = record db { sessions = keep (λ s. not (has_token token s)) db.sessions }

abbrev pub rehash : Text → Text → UserRow → UserRow
rehash id hash u = if has_id id u then record u { password_hash = hash } else u

unfoldable pub update_password_hash : Db → Text → Text → Db × Bool
update_password_hash db id hash =
    (record db { users = map (rehash id hash) db.users }, any (has_id id) db.users)

unfoldable pub delete_sessions_for_user : Db → Text → Db
delete_sessions_for_user db id = record db {
  sessions = keep (λ s. not (text_eq s.user_id id)) db.sessions;
}
