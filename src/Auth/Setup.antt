-- ===== src/Auth/Setup.antt =====
-- The first account: what `setup` needs and leaves, and two requests at once.
use cangling_update.Base.{
  ℕ, false, not, ◌||◌, List, [], ◌∷◌, some, ltb, ◌≡◌, refl, sym, ap, subst, ◌∙◌, arith, any, find,
  length, Bool-cases, inl, inr,
}
use cangling_update.Text.{Text, text_eq, text_eq_refl}
use cangling_update.Errors.{ok, >>=-eq-ok, check-then, refuse_if-then, Result-cases, ok-subst}
use cangling_update.Auth.Tables.{
  Db, UserRow, has_id, has_name, user_count, insert_user, has_token, create_session,
  get_user_by_name, session_user_id,
}
use cangling_update.Auth.Tokens.{normalize_username}
use cangling_update.Auth.Session.{
  Env, Auth, AuthUser, setup_check, setup_store, first_user, setup, issue_session,
}
use cangling_update.Auth.Access.{issue_session-ok}

setup_check-ok :
    (env : Env) (db : Db) (raw password : Text) {name : Text}
    → setup_check env db raw password ≡ ok name
    → (normalize_username raw ≡ ok name)
      × (env.validate_password password ≡ ok tt)
      × (user_count db ≡ 0)
unfolding setup_check
setup_check-ok env db raw password {name} h =
    let (n, named, h1) = >>=-eq-ok (normalize_username raw) _ h in
    let (passed, h2) = check-then (env.validate_password password) _ h1 in
    let (empty, last) = refuse_if-then (ltb 0 (user_count db)) _ _ h2 in
    (ok-subst (λ x. normalize_username raw ≡ ok x) last named, passed, ground arith)

length_nil {ℓ} : {A : Type ℓ} (xs : List A) → length xs ≡ 0 → xs ≡ []
length_nil [] h = refl
length_nil (x ∷ xs) h = absurd (omega (arith, h))

no_users : (db : Db) → user_count db ≡ 0 → db.users ≡ []
unfolding user_count
no_users db h = length_nil db.users h

setup_store-ok :
    (env : Env) (db db' : Db) (name password user_id : Text)
    → user_count db ≡ 0
    → setup_store env db name password user_id ≡ ok db'
    → get_user_by_name db' name
      ≡ some (record { id = user_id; username = name; password_hash = env.hash_password password })
unfolding setup_store insert_user get_user_by_name
setup_store-ok env db db' name password user_id h k =
    let none_yet = no_users db h in
    let u : UserRow = record {
      id = user_id;
      username = name;
      password_hash = env.hash_password password;
    } in
    ok-subst (λ d. find (has_name name) d.users ≡ some u) (rw none_yet at k)
      (rw (text_eq_refl name) refl)

first_user-ok :
    (env : Env) (db db' : Db) (raw password user_id name : Text)
    → first_user env db raw password user_id ≡ ok (name, db')
    → (user_count db ≡ 0)
      × (normalize_username raw ≡ ok name)
      × (env.validate_password password ≡ ok tt)
      × (get_user_by_name db' name
          ≡ some (record {
            id = user_id;
            username = name;
            password_hash = env.hash_password password;
          }))
unfolding first_user
first_user-ok env db db' raw password user_id name h =
    let (n, checked, more) = >>=-eq-ok (setup_check env db raw password) _ h in
    let (d, stored, last) = >>=-eq-ok (setup_store env db n password user_id) _ more in
    let (named, passed, empty) = setup_check-ok env db raw password checked in
    let found = setup_store-ok env db d n password user_id empty stored in
    ok-subst
      (λ r.
        (user_count db ≡ 0)
        × (normalize_username raw ≡ ok r.0)
        × (env.validate_password password ≡ ok tt)
        × (get_user_by_name r.1 r.0
            ≡ some (record {
              id = user_id;
              username = r.0;
              password_hash = env.hash_password password;
            })))
      last (empty, named, passed, found)

issue_session-user :
    (env : Env) (a a' : Auth) (now : ℕ) (token id name : Text) (u : AuthUser)
    → issue_session env a now token id name ≡ (a', ok u)
    → (x : Text) → get_user_by_name a'.db x ≡ get_user_by_name a.db x
unfolding issue_session create_session get_user_by_name
issue_session-user env a a' now token id name u e x =
    elim (Bool-cases (any (has_token token) a.db.sessions || not (any (has_id id) a.db.users))) [
      | inl bad ↦ absurd (cc (rw bad at e))
      | inr good ↦
          let done = rw good at e in
          let users : a.db.users ≡ a'.db.users = ap (λ r. r.0.db.users) done in
          ap (find (has_name x)) (sym users)
    ]

-- Who sets a node up: there was no account before, the name and the password are as required, the
-- account is stored with the hash of the password, and the new token stands for it from now on.
pub setup-ok :
    (env : Env) (a a' : Auth) (now : ℕ) (raw password user_id token : Text) (u : AuthUser)
    → setup env a now raw password user_id token ≡ (a', ok u)
    → (user_count a.db ≡ 0)
      × (normalize_username raw ≡ ok u.username)
      × (env.validate_password password ≡ ok tt)
      × (session_user_id a'.db token ≡ some (user_id, now))
      × (get_user_by_name a'.db u.username
          ≡ some (record {
            id = user_id;
            username = u.username;
            password_hash = env.hash_password password;
          }))
unfolding setup
setup-ok env a a' now raw password user_id token u h =
    elim (Result-cases (first_user env a.db raw password user_id)) [
      | inr (e, bad) ↦ absurd (cc (rw (setup, bad) at h))
      | inl ((name, db), made) ↦
          let (empty, named, passed, stored) =
            first_user-ok env a.db db raw password user_id name made in
          let issued = rw (setup, made) at h in
          let (fresh, session, kept, answer) =
            issue_session-ok env (record a { db = db }) a' now token user_id name u issued in
          let same : name ≡ u.username = ap (λ x. x.username) (sym answer) in
          (
            empty,
            subst (λ x. normalize_username raw ≡ ok x) same named,
            passed,
            session,
            issue_session-user env (record a { db = db }) a' now token user_id name u issued
                  u.username
                ∙ subst
                    (λ x.
                      get_user_by_name db x
                      ≡ some (record {
                        id = user_id;
                        username = x;
                        password_hash = env.hash_password password;
                      }))
                    same stored,
          )
    ]

-- Two requests that both find no account, under names and identifiers that differ, are both stored, one
-- after the other: the node then has two accounts.
pub setup_race :
    (env : Env) (db : Db) (raw raw' password password' name name' id id' : Text)
    → setup_check env db raw password ≡ ok name
    → setup_check env db raw' password' ≡ ok name'
    → text_eq name name' ≡ false
    → text_eq id id' ≡ false
    → (db1 db2 : Db) × (setup_store env db name password id ≡ ok db1)
      × (setup_store env db1 name' password' id' ≡ ok db2)
      × (user_count db2 ≡ 2)
unfolding setup_store insert_user user_count
setup_race env db raw raw' password password' name name' id id' h h' n i =
    let (named, passed, empty) = setup_check-ok env db raw password h in
    let none_yet = no_users db empty in
    let u : UserRow = record {
      id = id;
      username = name;
      password_hash = env.hash_password password;
    } in
    let u' : UserRow = record {
      id = id';
      username = name';
      password_hash = env.hash_password password';
    } in
    (
      record db { users = u ∷ [] },
      record db { users = u ∷ u' ∷ [] },
      rw none_yet refl,
      rw (n, i) refl,
      refl,
    )
