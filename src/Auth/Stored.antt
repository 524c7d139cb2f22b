-- ===== src/Auth/Stored.antt =====
-- The keys of the account tables, kept by every handler.
use cangling_update.Base.{
  ℕ, true, false, not, ◌||◌, List, [], ◌∷◌, ◌++◌, ◌≡◌, refl, ◌∙◌, arith, any, map, any-append,
  any-map, any-none, All, All-keep, All-map, All-append, All-mono, Pairwise, Pairwise-map,
  Pairwise-last, keep-Pairwise, Bool-cases, inl, inr,
}
use cangling_update.Text.{Text, text_eq}
use cangling_update.Errors.{ok, ok-subst}
use cangling_update.Auth.Tables.{
  Db, UserRow, SessionRow, has_id, has_name, has_token, insert_user, create_session, touch,
  touch_session, delete_session, rehash, update_password_hash, delete_sessions_for_user,
}

abbrev pub OtherUser : UserRow → UserRow → Type 0
OtherUser u v = (text_eq u.id v.id ≡ false) × (text_eq u.username v.username ≡ false)

abbrev pub OtherToken : SessionRow → SessionRow → Type 0
OtherToken s t = text_eq s.token t.token ≡ false

abbrev pub Owned : List UserRow → SessionRow → Type 0
Owned users s = any (has_id s.user_id) users ≡ true

-- No two users share an identifier or a name, no two sessions a token, and each session is of a user.
pub record DbInv (db : Db) : Type 0 where
  pub users : Pairwise OtherUser db.users
  pub sessions : Pairwise OtherToken db.sessions
  pub owned : All (Owned db.users) db.sessions

pub insert_user-DbInv :
    (why : Text) (db db' : Db) (u : UserRow) → DbInv db → insert_user why db u ≡ ok db' → DbInv db'
unfolding insert_user
insert_user-DbInv why db db' u inv h =
    elim (Bool-cases (any (λ x. has_id u.id x || has_name u.username x) db.users)) [
      | inl bad ↦ absurd (cc (rw bad at h))
      | inr new ↦ ok-subst DbInv (rw new at h) (record {
        users = Pairwise-last OtherUser db.users u inv.users (
            All-mono (λ x. (has_id u.id x || has_name u.username x) ≡ false) (λ x. OtherUser x u)
              db.users (λ x e. (ground arith, ground arith))
              (any-none (λ x. has_id u.id x || has_name u.username x) db.users new));
        sessions = inv.sessions;
        owned =
            All-mono (Owned db.users) (Owned (db.users ++ u ∷ [])) db.sessions
              (λ s e. any-append (has_id s.user_id) db.users (u ∷ []) ∙ rw e refl) inv.owned;
      })
    ]

pub create_session-DbInv :
    (why : Text) (db db' : Db) (now : ℕ) (token user_id : Text)
    → DbInv db
    → create_session why db now token user_id ≡ ok db'
    → DbInv db'
unfolding create_session
create_session-DbInv why db db' now token user_id inv h =
    elim (Bool-cases (any (has_token token) db.sessions || not (any (has_id user_id) db.users))) [
      | inl bad ↦ absurd (cc (rw bad at h))
      | inr good ↦
          let s : SessionRow = record {
            token = token;
            user_id = user_id;
            last_seen = now;
            created_at = now;
          } in
          ok-subst DbInv (rw good at h) (record {
            users = inv.users;
            sessions =
                Pairwise-last OtherToken db.sessions s inv.sessions
                  (any-none (has_token token) db.sessions (ground arith));
            owned = All-append (Owned db.users) db.sessions (s ∷ []) inv.owned (ground arith, tt);
          })
    ]

touch-token : (token : Text) (now : ℕ) (s : SessionRow) → (touch token now s).token ≡ s.token
touch-token token now s = ground arith

touch-user : (token : Text) (now : ℕ) (s : SessionRow) → (touch token now s).user_id ≡ s.user_id
touch-user token now s = ground arith

pub touch_session-DbInv :
    (db : Db) (now : ℕ) (token : Text) → DbInv db → DbInv (touch_session db now token)
unfolding touch_session
touch_session-DbInv db now token inv = record {
  users = inv.users;
  sessions =
      Pairwise-map OtherToken (touch token now) db.sessions
        (λ s t r. rw (touch-token token now s, touch-token token now t) r) inv.sessions;
  owned = All-map (Owned db.users) (touch token now) db.sessions (
      All-mono (Owned db.users) (λ s. Owned db.users (touch token now s)) db.sessions
        (λ s e. rw (touch-user token now s) e) inv.owned);
}

pub delete_session-DbInv : (db : Db) (token : Text) → DbInv db → DbInv (delete_session db token)
unfolding delete_session
delete_session-DbInv db token inv = record {
  users = inv.users;
  sessions = keep-Pairwise OtherToken (λ s. not (has_token token s)) db.sessions inv.sessions;
  owned = All-keep (Owned db.users) (λ s. not (has_token token s)) db.sessions inv.owned;
}

pub delete_sessions_for_user-DbInv :
    (db : Db) (id : Text) → DbInv db → DbInv (delete_sessions_for_user db id)
unfolding delete_sessions_for_user
delete_sessions_for_user-DbInv db id inv = record {
  users = inv.users;
  sessions = keep-Pairwise OtherToken (λ s. not (text_eq s.user_id id)) db.sessions inv.sessions;
  owned = All-keep (Owned db.users) (λ s. not (text_eq s.user_id id)) db.sessions inv.owned;
}

pub update_password_hash-DbInv :
    (db : Db) (id hash : Text) → DbInv db → DbInv (update_password_hash db id hash).0
unfolding update_password_hash
update_password_hash-DbInv db id hash inv = record {
  users =
      Pairwise-map OtherUser (rehash id hash) db.users (λ u v r. (ground arith, ground arith))
        inv.users;
  sessions = inv.sessions;
  owned =
      All-mono (Owned db.users) (Owned (map (rehash id hash) db.users)) db.sessions
        (λ s e. any-map (has_id s.user_id) (rehash id hash) db.users (λ u. ground arith) ∙ e)
        inv.owned;
}
