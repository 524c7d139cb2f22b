-- ===== src/Auth/Entry.antt =====
-- What a request needs to get to a handler.
use cangling_update.Base.{
  ℕ, ◌-◌, ◌/◌, ◌<◌, true, false, ◌||◌, ◌++◌, Option, none, some, ◌≡◌, ◌⊎◌, inl, inr, refl, ap,
  arith, Bool-cases,
}
use cangling_update.Text.{Text, text, one_of, starts_with}
use cangling_update.Errors.{ok}
use cangling_update.Auth.Guard.{second}
use cangling_update.Auth.Tables.{Db, session_user_id}
use cangling_update.Auth.Session.{SessionUser, current_user, idle_timeout_secs}
use cangling_update.Auth.Access.{current_user-some}
use cangling_update.Auth.Calls.{
  one_of-All, starts_with-rest, or-cases, login_calls, MachineCall, is_machine_path-MachineCall,
}
use cangling_update.Auth.Gate.{
  is_public, is_login_path, is_machine_path, pages, Request, is_open, request_token, let_in,
  require_auth,
}

-- No page and no file of `/vendor/` is behind `/api/`.
page_apart :
    (path : Text)
    → starts_with (text "/api/") path ≡ true
    → (starts_with (text "/vendor/") path || one_of path pages) ≡ false
page_apart path api = elim (Bool-cases (starts_with (text "/vendor/") path || one_of path pages)) [
  | inr e ↦ e
  | inl e ↦ elim (or-cases _ _ e) [
    | inl vendor ↦
        let (rest, same) = starts_with-rest (text "/vendor/") path vendor in
        let not_api : starts_with (text "/api/") (text "/vendor/" ++ rest) ≡ false =
          unfold text in refl in
        absurd (cc (api, ap (starts_with (text "/api/")) same, not_api))
    | inr page ↦
        let not_api : starts_with (text "/api/") path ≡ false =
          one_of-All (λ t. starts_with (text "/api/") t ≡ false) path pages page
            (unfold text in (refl, (refl, tt))) in
        absurd (cc (api, not_api))
  ]
]

-- Behind `/api/` no request but a GET gets to a handler without a session, except for the four calls that
-- log in and out, and the calls of other machines: thirteen paths by name, the binaries, the jobs and
-- the archives that a worker asks for by name, and the downloads from the package repository.
pub is_public_writes :
    (path : Text)
    → is_public false path ≡ true
    → starts_with (text "/api/") path ≡ true
    → (one_of path login_calls ≡ true) ⊎ MachineCall path
unfolding is_public
is_public_writes path h api = elim (or-cases _ (is_machine_path path) h) [
  | inr machine ↦ inr (is_machine_path-MachineCall path machine)
  | inl h1 ↦ elim (Bool-cases (is_login_path path)) [
    | inl login ↦ inl login
    | inr other ↦ absurd (let apart = page_apart path api in cc (rw (apart, other) at h1))
  ]
]

let_in-some :
    (db' : Db) (given : Option Text) (found : Db × Option SessionUser) {cookie : Option Text}
    → let_in given found ≡ (db', ok cookie)
    → (user : SessionUser) × (found ≡ (db', some user)) × (cookie ≡ given)
let_in-some db' given (db, none) k = absurd (ground arith)
let_in-some db' given (db, some user) {cookie} k =
    let same : db ≡ db' = ground arith in (user, ap (λ d. (d, some user)) same, ground arith)

let_in-ok :
    (db db' : Db) (now : ℕ) (given : Option Text) {cookie : Option Text}
    → let_in given (current_user db now given) ≡ (db', ok cookie)
    → (token id : Text) × (seen : ℕ) × (given ≡ some token)
      × (cookie ≡ some token)
      × (session_user_id db token ≡ some (id, seen))
      × ((now - seen) / second < idle_timeout_secs)
      × (session_user_id db' token ≡ some (id, now))
let_in-ok db db' now none k = absurd (unfold current_user in cc k)
let_in-ok db db' now (some token) {cookie} k =
    let (user, found, same) = let_in-some db' (some token) (current_user db now (some token)) k in
    let (id, seen, row, live, fresh, stored, same_user, saved, last) =
      current_user-some db db' now token user found in
    (token, id, seen, refl, same, live, fresh, saved)

-- A request that needs a session gets to its handler only with a token of one that was used less than
-- two hours ago; the use is written down, and the cookie of the answer holds that token.
pub require_auth-ok :
    (db db' : Db) (now : ℕ) (r : Request) {cookie : Option Text}
    → is_open r ≡ false
    → require_auth db now r ≡ (db', ok cookie)
    → (token id : Text) × (seen : ℕ) × (request_token r ≡ some token)
      × (cookie ≡ some token)
      × (session_user_id db token ≡ some (id, seen))
      × ((now - seen) / second < idle_timeout_secs)
      × (session_user_id db' token ≡ some (id, now))
unfolding require_auth
require_auth-ok db db' now r h k = let_in-ok db db' now (request_token r) (rw h at k)
