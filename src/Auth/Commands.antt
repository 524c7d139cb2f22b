-- ===== src/Auth/Commands.antt =====
-- The commands of src/main.rs that change accounts: `reset_password` (and the local part of
-- `change_password`, which does the same), `issue_session_cli` and `ensure_initial_admin`. A command that
-- fails changes nothing; `password` is the one that was given or the one that was generated.
use mathlib.Core.Option.{Option, none, some}
use cangling_update.Base.{ℕ, ◌==◌, ◌>>=◌, List, [], ◌∷◌, map, if◌then◌else◌, sort_by, get_or}
use cangling_update.Text.{Text, text, text_leb}
use cangling_update.Errors.{Result, ok, err}
use cangling_update.Auth.Tables.{
  Db, UserRow, user_count, get_user_by_name, insert_user, create_session, update_password_hash,
  delete_sessions_for_user,
}
use cangling_update.Auth.Session.{Env}

unfoldable pub list_usernames : Db → List Text
list_usernames db = sort_by text_leb (map (λ u. u.username) db.users)

-- The name that was given, or the only one there is.
abbrev pub chosen_name : List Text → Option Text → Option Text
chosen_name [] given = none
chosen_name (name ∷ names) (some given) = some given
chosen_name (name ∷ []) none = some name
chosen_name (name ∷ other ∷ names) none = none

abbrev pub chosen_user : Db → Option Text → Option UserRow
chosen_user db given = do name ← chosen_name (list_usernames db) given; get_user_by_name db name

abbrev pub or_before : Db → Result Db → Db
or_before db (err e) = db
or_before db (ok db') = db'

abbrev pub with_password : Env → Db → Text → UserRow → Db
with_password env db password user = elim (env.validate_password password) [
  | err e ↦ db
  | ok u ↦
      delete_sessions_for_user (update_password_hash db user.id (env.hash_password password)).0
        user.id
]

unfoldable pub reset_password : Env → Db → Option Text → Text → Db
unfolding list_usernames get_user_by_name update_password_hash delete_sessions_for_user
reset_password env db given password = elim (chosen_user db given) [
  | none ↦ db
  | some user ↦ with_password env db password user
]

unfoldable pub issue_session_cli : Env → Db → ℕ → Option Text → Text → Db
unfolding list_usernames get_user_by_name create_session
issue_session_cli env db now given token = elim (chosen_user db given) [
  | none ↦ db
  | some user ↦ or_before db (create_session env.conflict_text db now token user.id)
]

abbrev pub default_admin_password : Text
default_admin_password = text "-Cangling@zky"

-- At the start: the first account, under the name `admin`.
unfoldable pub ensure_initial_admin : Env → Db → Option Text → Text → Db
unfolding user_count insert_user
ensure_initial_admin env db configured fresh_id =
    let password = get_or configured default_admin_password in
    if user_count db == 0
    then elim (env.validate_password password) [
      | err e ↦ db
      | ok u ↦ or_before db (
          insert_user env.conflict_text db (record {
            id = fresh_id;
            username = text "admin";
            password_hash = env.hash_password password;
          }))
    ]
    else db
