-- ===== src/Auth/UpheldByCommands.antt =====
-- The commands on accounts, and the account that a master sends, keep the account tables well formed.
use cangling_update.Base.{
  ℕ, Bool, ◌==◌, get_or, Option, none, some, is_empty, ◌≡◌, refl, Bool-cases, Option-cases, inl,
  inr,
}
use cangling_update.Text.{Text, trim}
use cangling_update.Errors.{Result, ok, err, >>=-eq-ok, refuse_if-then, Result-cases, ok-subst}
use cangling_update.Auth.Tables.{
  Db, UserRow, user_count, insert_user, create_session, get_user_by_name,
}
use cangling_update.Auth.Session.{Env}
use cangling_update.Auth.Commands.{
  chosen_user, or_before, with_password, reset_password, issue_session_cli, ensure_initial_admin,
  default_admin_password,
}
use cangling_update.Cluster.Requests.{auth_sync, sync_account}
use cangling_update.Auth.Stored.{
  DbInv, insert_user-DbInv, create_session-DbInv, delete_sessions_for_user-DbInv,
  update_password_hash-DbInv,
}

or_before-DbInv :
    (db : Db) (made : Result Db)
    → DbInv db
    → ((db' : Db) → made ≡ ok db' → DbInv db')
    → DbInv (or_before db made)
or_before-DbInv db (err e) inv f = inv
or_before-DbInv db (ok db') inv f = f db' refl

with_password-DbInv :
    (env : Env) (db : Db) (password : Text) (user : UserRow)
    → DbInv db
    → DbInv (with_password env db password user)
with_password-DbInv env db password user inv =
    elim (Result-cases (env.validate_password password)) [
      | inr (e, bad) ↦ rw (with_password, bad) inv
      | inl (u, good) ↦
          rw (with_password, good)
            (delete_sessions_for_user-DbInv _ user.id
              (update_password_hash-DbInv db user.id (env.hash_password password) inv))
    ]

pub reset_password-DbInv :
    (env : Env) (db : Db) (given : Option Text) (password : Text)
    → DbInv db
    → DbInv (reset_password env db given password)
unfolding reset_password
reset_password-DbInv env db given password inv = elim (Option-cases (chosen_user db given)) [
  | inl missing ↦ rw (reset_password, missing) inv
  | inr (user, found) ↦ rw (reset_password, found) (with_password-DbInv env db password user inv)
]

pub issue_session_cli-DbInv :
    (env : Env) (db : Db) (now : ℕ) (given : Option Text) (token : Text)
    → DbInv db
    → DbInv (issue_session_cli env db now given token)
unfolding issue_session_cli
issue_session_cli-DbInv env db now given token inv = elim (Option-cases (chosen_user db given)) [
  | inl missing ↦ rw (issue_session_cli, missing) inv
  | inr (user, found) ↦
      rw (issue_session_cli, found)
        (or_before-DbInv db (create_session env.conflict_text db now token user.id) inv
          (λ db' made. create_session-DbInv env.conflict_text db db' now token user.id inv made))
]

pub ensure_initial_admin-DbInv :
    (env : Env) (db : Db) (configured : Option Text) (fresh_id : Text)
    → DbInv db
    → DbInv (ensure_initial_admin env db configured fresh_id)
unfolding ensure_initial_admin
ensure_initial_admin-DbInv env db configured fresh_id inv = elim (Bool-cases (user_count db == 0)) [
  | inr e ↦ rw e inv
  | inl e ↦ elim (Result-cases (env.validate_password (get_or configured default_admin_password))) [
    | inr (why, bad) ↦ rw (e, bad) inv
    | inl (u, good) ↦
        rw (e, good)
          (or_before-DbInv db (insert_user env.conflict_text db _) inv
            (λ db' made. insert_user-DbInv env.conflict_text db db' _ inv made))
  ]
]

pub auth_sync-DbInv :
    (why : Text) (db db' : Db) (raw hash fresh_id : Text) (created : Bool)
    → DbInv db
    → auth_sync why db raw hash fresh_id ≡ ok (db', created)
    → DbInv db'
unfolding auth_sync
auth_sync-DbInv why db db' raw hash fresh_id created inv h =
    let (some_name, h1) = refuse_if-then (is_empty (trim raw)) _ _ h in
    let (some_hash, h2) = refuse_if-then (is_empty hash) _ _ h1 in
    taken_over (get_user_by_name db (trim raw)) h2
  where
    taken_over :
        (found : Option UserRow)
        → sync_account why db (trim raw) hash fresh_id found ≡ ok (db', created)
        → DbInv db'
    taken_over (some user) k =
        ok-subst (λ r. DbInv r.0) (unfold sync_account in k)
          (delete_sessions_for_user-DbInv _ user.id
            (update_password_hash-DbInv db user.id hash inv))
    taken_over none k =
        let (d, made, last) = >>=-eq-ok (insert_user why db _) _ (unfold sync_account in k) in
        ok-subst (λ r. DbInv r.0) last (insert_user-DbInv why db d _ inv made)
