-- ===== src/Auth/Upheld.antt =====
-- Each request on the accounts keeps the account tables well formed.
use cangling_update.Base.{
  ℕ, Option, none, some, is_empty, ◌≡◌, refl, sym, subst, Bool-cases, Option-cases, inl, inr, ◌||◌,
}
use cangling_update.Text.{Text, trim}
use cangling_update.Errors.{Result, ok, err, >>=-eq-ok, Result-cases, ok-subst}
use cangling_update.Auth.Guard.{clear, lockout_remaining_secs}
use cangling_update.Auth.Tables.{
  Db, insert_user, create_session, touch_session, get_user_by_id, get_user_by_name, session_user_id,
}
use cangling_update.Auth.Tokens.{Headers, read_token}
use cangling_update.Auth.Session.{
  Env, Auth, AuthUser, SessionUser, setup_check, setup_store, first_user, setup, issue_session,
  login, check_password, current_user, session_expired, replace_password, change_for, logout,
  with_db,
}
use cangling_update.Auth.Access.{replace_password-ok}
use cangling_update.Auth.Stored.{
  DbInv, insert_user-DbInv, create_session-DbInv, touch_session-DbInv, delete_session-DbInv,
  delete_sessions_for_user-DbInv, update_password_hash-DbInv,
}

pub current_user-DbInv :
    (db : Db) (now : ℕ) (token : Option Text) → DbInv db → DbInv (current_user db now token).0
unfolding current_user
current_user-DbInv db now none inv = inv
current_user-DbInv db now (some token) inv = elim (Bool-cases (is_empty token)) [
  | inl e ↦ rw e inv
  | inr e ↦ elim (Option-cases (session_user_id db token)) [
    | inl absent ↦ rw (e, absent) inv
    | inr ((id, seen), there) ↦ elim (Bool-cases (session_expired now seen)) [
      | inl old ↦ rw (e, there, old) (delete_session-DbInv db token inv)
      | inr live ↦ elim (Option-cases (get_user_by_id (touch_session db now token) id)) [
        | inl gone ↦
            rw (e, there, live, gone)
              (delete_session-DbInv _ token (touch_session-DbInv db now token inv))
        | inr (user, found) ↦ rw (e, there, live, found) (touch_session-DbInv db now token inv)
      ]
    ]
  ]
]

with_db-DbInv :
    (a : Auth) (made : Result Db) (u : AuthUser)
    → DbInv a.db
    → ((db : Db) → made ≡ ok db → DbInv db)
    → DbInv (with_db a made u).0.db
with_db-DbInv a (err e) u inv f = inv
with_db-DbInv a (ok db) u inv f = f db refl

issue_session-DbInv :
    (env : Env) (a : Auth) (now : ℕ) (token id name : Text)
    → DbInv a.db
    → DbInv (issue_session env a now token id name).0.db
unfolding issue_session
issue_session-DbInv env a now token id name inv =
    with_db-DbInv a (create_session env.conflict_text a.db now token id) _ inv
      (λ db made. create_session-DbInv env.conflict_text a.db db now token id inv made)

check_password-DbInv :
    (env : Env) (a : Auth) (now : ℕ) (name password token : Text)
    → DbInv a.db
    → DbInv (check_password env a now name password token).0.db
unfolding check_password
check_password-DbInv env a now name password token inv =
    elim (Option-cases (get_user_by_name a.db name)) [
      | inl missing ↦ rw (check_password, missing) inv
      | inr (user, found) ↦ elim (Bool-cases (env.verify_password password user.password_hash)) [
        | inl right ↦
            rw (check_password, found, right)
              (issue_session-DbInv env (record a { guard = clear a.guard name }) now token user.id
                user.username inv)
        | inr wrong ↦ rw (check_password, found, wrong) inv
      ]
    ]

pub login-DbInv :
    (env : Env) (a : Auth) (now : ℕ) (raw password token : Text)
    → DbInv a.db
    → DbInv (login env a now raw password token).0.db
unfolding login
login-DbInv env a now raw password token inv =
    elim (Bool-cases (is_empty (trim raw) || is_empty password)) [
      | inl e ↦ rw e inv
      | inr e ↦ elim (Option-cases (lockout_remaining_secs a.guard (trim raw) now)) [
        | inl free ↦ rw (e, free) (check_password-DbInv env a now (trim raw) password token inv)
        | inr (secs, locked) ↦ rw (e, locked) inv
      ]
    ]

first_user-DbInv :
    (env : Env) (db db' : Db) (raw password user_id name : Text)
    → DbInv db
    → first_user env db raw password user_id ≡ ok (name, db')
    → DbInv db'
unfolding first_user setup_store
first_user-DbInv env db db' raw password user_id name inv h =
    let (n, checked, more) = >>=-eq-ok (setup_check env db raw password) _ h in
    let (d, stored, last) = >>=-eq-ok (insert_user env.conflict_text db _) _ more in
    ok-subst (λ r. DbInv r.1) last (insert_user-DbInv env.conflict_text db d _ inv stored)

pub setup-DbInv :
    (env : Env) (a : Auth) (now : ℕ) (raw password user_id token : Text)
    → DbInv a.db
    → DbInv (setup env a now raw password user_id token).0.db
unfolding setup
setup-DbInv env a now raw password user_id token inv =
    elim (Result-cases (first_user env a.db raw password user_id)) [
      | inl ((name, db), made) ↦
          rw (setup, made)
            (issue_session-DbInv env (record a { db = db }) now token user_id name
              (first_user-DbInv env a.db db raw password user_id name inv made))
      | inr (e, bad) ↦ rw (setup, bad) inv
    ]

replace_password-DbInv :
    (env : Env) (db db' : Db) (user : SessionUser) (old new : Text)
    → DbInv db
    → replace_password env db user old new ≡ ok db'
    → DbInv db'
replace_password-DbInv env db db' user old new inv h =
    let (passed, row, known, right, same) = replace_password-ok env db user old new h in
    subst DbInv (sym same) (
      delete_sessions_for_user-DbInv _ user.id
        (update_password_hash-DbInv db user.id (env.hash_password new) inv))

pub change_for-DbInv :
    (env : Env) (found : Db × Option SessionUser) (old new : Text)
    → DbInv found.0
    → DbInv (change_for env found old new).0
unfolding change_for
change_for-DbInv env (db, none) old new inv = inv
change_for-DbInv env (db, some user) old new inv =
    elim (Result-cases (replace_password env db user old new)) [
      | inl (db', done) ↦
          rw (change_for, done) (replace_password-DbInv env db db' user old new inv done)
      | inr (e, bad) ↦ rw (change_for, bad) inv
    ]

pub logout-DbInv : (db : Db) (headers : Headers) → DbInv db → DbInv (logout db headers)
unfolding logout
logout-DbInv db headers inv = elim (Option-cases (read_token headers)) [
  | inl absent ↦ rw (logout, absent) inv
  | inr (token, there) ↦ rw (logout, there) (delete_session-DbInv db token inv)
]
