-- ===== src/Auth/Access.antt =====
-- What a session grants and for how long, and when a password opens one.
use cangling_update.Base.{
  ℕ, ◌-◌, ◌/◌, ◌<◌, ◌≤◌, true, false, Option, none, some, ◌≡◌, arith, Bool-cases, Option-cases, inl,
  inr, is_empty, lookup, lookup-remove,
}
use cangling_update.Text.{Text, text_eq, text_is_eq, text_eq_refl, trim}
use cangling_update.Errors.{ok, Result-cases}
use cangling_update.Auth.Guard.{second, lockout_remaining_secs, clear}
use cangling_update.Auth.Tables.{
  Db, UserRow, get_user_by_id, get_user_by_name, session_user_id, touch_session, delete_session,
  create_session, delete_sessions_for_user, update_password_hash,
}
use cangling_update.Auth.Rows.{
  session_user_id-touch, session_user_id-delete, session_user_id-delete_user,
  session_user_id-create,
}
use cangling_update.Auth.Tokens.{Headers, read_token}
use cangling_update.Auth.Session.{
  idle_timeout_secs, SessionUser, session_expired, current_user, Env, Auth, AuthUser, issue_session,
  check_password, login, replace_password, change_for, change_password,
}

-- Whoever a token is taken for: the token names a session that was used less than two hours ago, the
-- user is the stored one whose identifier the session holds, and the use is written down, so that the
-- session is good for another two hours.
pub current_user-some :
    (db db' : Db) (now : ℕ) (token : Text) (u : SessionUser)
    → current_user db now (some token) ≡ (db', some u)
    → (id : Text) × (seen : ℕ) × (row : UserRow) × (session_user_id db token ≡ some (id, seen))
      × ((now - seen) / second < idle_timeout_secs)
      × (get_user_by_id db id ≡ some row)
      × (u ≡ record { id = row.id; username = row.username })
      × (session_user_id db' token ≡ some (id, now))
      × (db' ≡ touch_session db now token)
unfolding current_user session_expired get_user_by_id touch_session
current_user-some db db' now token u h = elim (Option-cases (session_user_id db token)) [
  | inl e ↦ absurd (ground arith)
  | inr ((id, seen), e) ↦ elim (Option-cases (get_user_by_id db id)) [
    | inl gone ↦ absurd (ground arith)
    | inr (row, found) ↦
        let saved : db' ≡ touch_session db now token = ground arith in
        (
          id,
          seen,
          row,
          e,
          ground arith,
          found,
          ground arith,
          rw (saved, session_user_id-touch db now token, e),
          saved,
        )
  ]
]

-- A session that has not been used for two hours opens nothing, and is deleted for good.
pub current_user_idle :
    (db : Db) (now : ℕ) (token id : Text) (seen : ℕ)
    → is_empty token ≡ false
    → session_user_id db token ≡ some (id, seen)
    → idle_timeout_secs ≤ (now - seen) / second
    → (current_user db now (some token) ≡ (delete_session db token, none))
      × ((later : ℕ)
          → current_user (delete_session db token) later (some token)
            ≡ (delete_session db token, none))
unfolding current_user session_expired
current_user_idle db now token id seen ne e h =
    (ground arith, λ later. ground (arith, session_user_id-delete db token))

pub replace_password-ok :
    (env : Env) (seen : Db) (u : SessionUser) (old new : Text) {db' : Db}
    → replace_password env seen u old new ≡ ok db'
    → (env.validate_password new ≡ ok tt)
      × (row : UserRow) × (get_user_by_id seen u.id ≡ some row)
      × (env.verify_password old row.password_hash ≡ true)
      × (db'
          ≡ delete_sessions_for_user
              (update_password_hash seen u.id (env.hash_password new)).0
              u.id)
unfolding replace_password
replace_password-ok env seen u old new e = elim (Option-cases (get_user_by_id seen u.id)) [
  | inl missing ↦ absurd (ground arith)
  | inr (row, found) ↦ (ground arith, row, found, ground arith, ground arith)
]

change_for-ok :
    (env : Env) (r : Db × Option SessionUser) (old new : Text) (u : SessionUser) {db' : Db}
    → change_for env r old new ≡ (db', ok u)
    → (r.1 ≡ some u) × (replace_password env r.0 u old new ≡ ok db')
unfolding change_for
change_for-ok env (seen, none) old new u e = absurd (ground arith)
change_for-ok env (seen, some v) old new u e = ground arith

-- A password is changed only for the user of a live session who knows the old one, and then no
-- session of that user is left, under any token.
pub change_password_ends_sessions :
    (env : Env) (db db' : Db) (now : ℕ) (h : Headers) (old new : Text) (u : SessionUser)
    → change_password env db now h old new ≡ (db', ok u)
    → ((current_user db now (read_token h)).1 ≡ some u)
      × (env.validate_password new ≡ ok tt)
      × ((row : UserRow) × (get_user_by_id (current_user db now (read_token h)).0 u.id ≡ some row)
          × (env.verify_password old row.password_hash ≡ true))
      × ((token uid : Text) (seen : ℕ)
          → session_user_id db' token ≡ some (uid, seen)
          → text_eq uid u.id ≡ false)
unfolding change_password
change_password_ends_sessions env db db' now h old new u e =
    let (found, replaced) = change_for-ok env (current_user db now (read_token h)) old new u e in
    let (valid, row, known, right, saved) =
      replace_password-ok env (current_user db now (read_token h)).0 u old new replaced in
    (
      found,
      valid,
      (row, known, right),
      λ token uid seen s. session_user_id-delete_user _ u.id token uid seen (rw saved at s),
    )

pub issue_session-ok :
    (env : Env) (a a' : Auth) (now : ℕ) (token id name : Text) (u : AuthUser)
    → issue_session env a now token id name ≡ (a', ok u)
    → (session_user_id a.db token ≡ none)
      × (session_user_id a'.db token ≡ some (id, now))
      × (a'.guard ≡ a.guard)
      × (u ≡ record { id = id; username = name; token = token })
unfolding issue_session
issue_session-ok env a a' now token id name u e =
    elim (Result-cases (create_session env.conflict_text a.db now token id)) [
      | inl (db, made) ↦
          ground (arith, session_user_id-create env.conflict_text a.db db now token id made)
      | inr (e', bad) ↦ absurd (ground arith)
    ]

lookup-clear : (a : Auth) (name : Text) → lookup name (clear a.guard name) ≡ none
unfolding clear
lookup-clear a name = rw (lookup-remove name name a.guard, text_eq_refl name)

check_password-ok :
    (env : Env) (a a' : Auth) (now : ℕ) (name password token : Text) (u : AuthUser)
    → check_password env a now name password token ≡ (a', ok u)
    → (user : UserRow) × (get_user_by_name a.db name ≡ some user)
      × (env.verify_password password user.password_hash ≡ true)
      × (session_user_id a'.db token ≡ some (user.id, now))
      × (lookup name a'.guard ≡ none)
      × (u ≡ record { id = user.id; username = user.username; token = token })
unfolding check_password
check_password-ok env a a' now name password token u e =
    elim (Option-cases (get_user_by_name a.db name)) [
      | inl missing ↦ absurd (ground arith)
      | inr (user, found) ↦ elim (Bool-cases (env.verify_password password user.password_hash)) [
        | inr wrong ↦ absurd (ground arith)
        | inl right ↦
            let (fresh, session, kept, answer) =
              issue_session-ok env (record a { guard = clear a.guard name }) a' now token user.id
                user.username u (ground arith) in
            (user, found, right, session, rw kept (lookup-clear a name), answer)
      ]
    ]

-- Whoever logs in: the account is not locked, the password fits the stored user of that name, a new
-- session stands for that user from now on, and the failures counted before are forgotten.
pub login-ok :
    (env : Env) (a a' : Auth) (now : ℕ) (raw password token : Text) (u : AuthUser)
    → login env a now raw password token ≡ (a', ok u)
    → (user : UserRow) × (lockout_remaining_secs a.guard (trim raw) now ≡ none)
      × (get_user_by_name a.db (trim raw) ≡ some user)
      × (env.verify_password password user.password_hash ≡ true)
      × (session_user_id a'.db token ≡ some (user.id, now))
      × (lookup (trim raw) a'.guard ≡ none)
      × (u ≡ record { id = user.id; username = user.username; token = token })
unfolding login
login-ok env a a' now raw password token u e =
    elim (Option-cases (lockout_remaining_secs a.guard (trim raw) now)) [
      | inr (secs, locked) ↦ absurd (ground arith)
      | inl open' ↦
          let (user, found, right, session, forgotten, answer) =
            check_password-ok env a a' now (trim raw) password token u (ground arith) in
          (user, open', found, right, session, forgotten, answer)
    ]
