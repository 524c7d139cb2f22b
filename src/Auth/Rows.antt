-- ===== src/Auth/Rows.antt =====
-- Lemmas on the rows of the account tables: what each statement does to what a lookup finds.
use cangling_update.Base.{
  ℕ, Bool, false, not, List, [], ◌∷◌, ◌++◌, Option, none, some, ◌≡◌, refl, arith, any, keep, find,
  map, Bool-cases, inl, inr, sym, ◌∙◌,
}
use cangling_update.Text.{Text, text_eq, text_eq_refl}
use cangling_update.Auth.Tables.{
  Db, SessionRow, has_token, session_user_id, touch, touch_session, delete_session,
  delete_sessions_for_user, create_session,
}
use cangling_update.Errors.{ok}

module _ {ℓ} {A : Type ℓ} (p : A → Bool) where
  find_absent : (xs : List A) → any p xs ≡ false → find p xs ≡ none
  find_absent [] h = refl
  find_absent (x ∷ xs) h = ground (arith, find_absent xs)

  find-append : (xs ys : List A) → any p xs ≡ false → find p (xs ++ ys) ≡ find p ys
  find-append [] ys h = refl
  find-append (x ∷ xs) ys h = ground (arith, find-append xs ys)

  find-keep-not : (xs : List A) → find p (keep (λ x. not (p x)) xs) ≡ none
  find-keep-not [] = refl
  find-keep-not (x ∷ xs) = ground (arith, find-keep-not xs)

-- The columns that `session_user_id` reads.
abbrev columns : Option SessionRow → Option (Text × ℕ)
columns none = none
columns (some s) = some (s.user_id, s.last_seen)

abbrev refreshed : ℕ → Option (Text × ℕ) → Option (Text × ℕ)
refreshed now none = none
refreshed now (some (id, seen)) = some (id, now)

find-touch :
    (now : ℕ) (token : Text) (xs : List SessionRow)
    → columns (find (has_token token) (map (touch token now) xs))
      ≡ refreshed now (columns (find (has_token token) xs))
find-touch now token [] = refl
find-touch now token (x ∷ xs) = elim (Bool-cases (has_token token x)) [
  | inl e ↦ rw (e, e)
  | inr e ↦ rw (e, e) (find-touch now token xs)
]

session_user_id-columns :
    (db : Db) (token : Text)
    → session_user_id db token ≡ columns (find (has_token token) db.sessions)
unfolding session_user_id
session_user_id-columns db token = ground arith

pub session_user_id-touch :
    (db : Db) (now : ℕ) (token : Text)
    → session_user_id (touch_session db now token) token ≡ refreshed now (session_user_id db token)
unfolding touch_session
session_user_id-touch db now token =
    rw
      (session_user_id-columns (touch_session db now token) token, session_user_id-columns db token)
      (find-touch now token db.sessions)

pub session_user_id-delete :
    (db : Db) (token : Text) → session_user_id (delete_session db token) token ≡ none
unfolding delete_session
session_user_id-delete db token = rw (
  session_user_id-columns (delete_session db token) token,
  find-keep-not (has_token token) db.sessions,
)

-- After the sessions of a user are deleted, a token that still finds one finds another user's.
abbrev OfAnother : Text → Option SessionRow → Type 0
OfAnother id none = Unit {0}
OfAnother id (some s) = text_eq s.user_id id ≡ false

find-keep_user :
    (id token : Text) (xs : List SessionRow)
    → OfAnother id (find (has_token token) (keep (λ s. not (text_eq s.user_id id)) xs))
find-keep_user id token [] = tt
find-keep_user id token (x ∷ xs) = elim (Bool-cases (text_eq x.user_id id)) [
  | inl e ↦ rw e (find-keep_user id token xs)
  | inr e ↦ rw e (elim (Bool-cases (has_token token x)) [
    | inl hit ↦ rw hit e
    | inr miss ↦ rw miss (find-keep_user id token xs)
  ])
]

OfAnother-columns :
    (id uid : Text) (seen : ℕ) (o : Option SessionRow)
    → OfAnother id o
    → columns o ≡ some (uid, seen)
    → text_eq uid id ≡ false
OfAnother-columns id uid seen none a h = cc
OfAnother-columns id uid seen (some s) a h = ground arith

pub session_user_id-delete_user :
    (db : Db) (id token uid : Text) (seen : ℕ)
    → session_user_id (delete_sessions_for_user db id) token ≡ some (uid, seen)
    → text_eq uid id ≡ false
unfolding delete_sessions_for_user
session_user_id-delete_user db id token uid seen h =
    OfAnother-columns id uid seen _ (find-keep_user id token db.sessions)
      (sym (session_user_id-columns (delete_sessions_for_user db id) token) ∙ h)

pub session_user_id-create :
    (why : Text) (db db' : Db) (now : ℕ) (token user_id : Text)
    → create_session why db now token user_id ≡ ok db'
    → (session_user_id db token ≡ none) × (session_user_id db' token ≡ some (user_id, now))
unfolding create_session session_user_id
session_user_id-create why db db' now token user_id h = ground (
  arith,
  find_absent (has_token token) db.sessions,
  find-append (has_token token) db.sessions
      (record { token = token; user_id = user_id; last_seen = now; created_at = now } ∷ []),
  text_eq_refl token,
)
