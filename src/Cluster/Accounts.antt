-- ===== src/Cluster/Accounts.antt =====
-- What a worker's accounts are after `auth_sync`.
use cangling_update.Base.{
  ℕ, Bool, true, false, not, ◌||◌, List, [], ◌∷◌, ◌++◌, none, some, ◌≡◌, refl, sym, ap, subst, ◌∙◌,
  arith, is_empty, is_some, any, find, find-map, Bool-cases, Option-cases, inl, inr,
}
use cangling_update.Text.{Text, text_eq, text_eq_refl, trim}
use cangling_update.Errors.{ok, >>=-eq-ok, refuse_if-then, ok-subst}
use cangling_update.Auth.Tables.{
  Db, UserRow, has_id, has_name, rehash, get_user_by_name, update_password_hash,
  delete_sessions_for_user, insert_user, session_user_id,
}
use cangling_update.Auth.Rows.{session_user_id-delete_user}
use cangling_update.Cluster.Requests.{auth_sync, sync_account}

find_later {ℓ} :
    {A : Type ℓ} (p : A → Bool) (xs ys : List A) → find p xs ≡ none → find p (xs ++ ys) ≡ find p ys
find_later p [] ys h = refl
find_later p (x ∷ xs) ys h = ground (arith, find_later p xs ys)

-- The account after the call, and who may still use it.
pub record Synced (db db' : Db) (name hash : Text) (created : Bool) (u : UserRow) : Type 0 where
  pub stored : get_user_by_name db' name ≡ some u
  pub hash_sent : u.password_hash ≡ hash
  pub new : created ≡ not (is_some (get_user_by_name db name))
  pub closed :
      created ≡ false
      → (token uid : Text) (seen : ℕ) → session_user_id db' token ≡ some (uid, seen)
      → text_eq uid u.id ≡ false

get_user_by_name-rehashed :
    (db : Db) (name hash : Text) {user : UserRow}
    → get_user_by_name db name ≡ some user
    → get_user_by_name
        (delete_sessions_for_user (update_password_hash db user.id hash).0 user.id)
        name
      ≡ some (record user { password_hash = hash })
unfolding get_user_by_name delete_sessions_for_user update_password_hash
get_user_by_name-rehashed db name hash {user} h =
    find-map (has_name name) (has_name name) (rehash user.id hash) db.users (λ u. ground arith) h
    ∙ rw (text_eq_refl user.id) refl

get_user_by_name-inserted :
    (why : Text) (db db' : Db) (u : UserRow)
    → get_user_by_name db u.username ≡ none
    → insert_user why db u ≡ ok db'
    → get_user_by_name db' u.username ≡ some u
unfolding get_user_by_name insert_user
get_user_by_name-inserted why db db' u absent h =
    elim (Bool-cases (any (λ x. has_id u.id x || has_name u.username x) db.users)) [
      | inl e ↦ absurd (cc (rw e at h))
      | inr e ↦
          ok-subst (λ d. find (has_name u.username) d.users ≡ some u) (rw e at h)
            (find_later (has_name u.username) db.users (u ∷ []) absent
              ∙ rw (text_eq_refl u.username) refl)
    ]

sync_account-Synced :
    (why : Text) (db db' : Db) (name hash fresh_id : Text) (created : Bool)
    → sync_account why db name hash fresh_id (get_user_by_name db name) ≡ ok (db', created)
    → (u : UserRow) × Synced db db' name hash created u
unfolding sync_account
sync_account-Synced why db db' name hash fresh_id created h =
    elim (Option-cases (get_user_by_name db name)) [
      | inl absent ↦
          let u : UserRow = record { id = fresh_id; username = name; password_hash = hash } in
          let (d, inserted, last) = >>=-eq-ok (insert_user why db u) _ (rw absent at h) in
          let same : d ≡ db' = ground arith in
          let new : true ≡ created = ground arith in
          (
            u,
            record {
              stored =
                  subst (λ x. get_user_by_name x name ≡ some u) same
                    (get_user_by_name-inserted why db d u absent inserted);
              hash_sent = refl;
              new = rw absent (sym new);
              closed = λ old. absurd (cc (old, new));
            },
          )
      | inr (user, there) ↦
          let last = rw there at h in
          let same : delete_sessions_for_user (update_password_hash db user.id hash).0 user.id
              ≡ db' =
            ground arith in
          let new : false ≡ created = ground arith in
          (
            record user { password_hash = hash },
            record {
              stored =
                  subst (λ x. get_user_by_name x name ≡ some (record user { password_hash = hash }))
                    same (get_user_by_name-rehashed db name hash there);
              hash_sent = refl;
              new = rw there (sym new);
              closed = λ old token uid seen found.
                  session_user_id-delete_user (update_password_hash db user.id hash).0 user.id token
                    uid seen (ap (λ x. session_user_id x token) same ∙ found);
            },
          )
    ]

-- An account that a worker takes over is stored under its name with the hash that was sent, counted as
-- new exactly if it was not there, and if it was there no session of it is left.
pub auth_sync-Synced :
    (why : Text) (db db' : Db) (raw hash fresh_id : Text) (created : Bool)
    → auth_sync why db raw hash fresh_id ≡ ok (db', created)
    → (u : UserRow) × Synced db db' (trim raw) hash created u
unfolding auth_sync
auth_sync-Synced why db db' raw hash fresh_id created h =
    let (named, h1) = refuse_if-then (is_empty (trim raw)) _ _ h in
    let (hashed, last) = refuse_if-then (is_empty hash) _ _ h1 in
    sync_account-Synced why db db' (trim raw) hash fresh_id created last
