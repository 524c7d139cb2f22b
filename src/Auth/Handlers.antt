-- ===== src/Auth/Handlers.antt =====
-- Any sequence of requests and commands keeps the account tables well formed.
use cangling_update.Base.{ℕ, Bool, List, [], ◌∷◌, Option, ◌≡◌, refl}
use cangling_update.Text.{Text}
use cangling_update.Errors.{Result, ok, err}
use cangling_update.Auth.Tables.{Db}
use cangling_update.Auth.Tokens.{Headers, read_token}
use cangling_update.Auth.Session.{Env, Auth, setup, login, current_user, change_password, logout}
use cangling_update.Auth.Commands.{reset_password, issue_session_cli, ensure_initial_admin}
use cangling_update.Cluster.Requests.{auth_sync}
use cangling_update.Auth.Stored.{DbInv}
use cangling_update.Auth.Upheld.{
  current_user-DbInv, login-DbInv, setup-DbInv, change_for-DbInv, logout-DbInv,
}
use cangling_update.Auth.UpheldByCommands.{
  reset_password-DbInv, issue_session_cli-DbInv, ensure_initial_admin-DbInv, auth_sync-DbInv,
}

-- What reaches the account tables: the requests of browsers, the account that a master sends to its
-- workers, and the commands of the program.
pub data AuthRequest : Type 0 where
  sets_up : Text → Text → Text → Text → AuthRequest
  logs_in : Text → Text → Text → AuthRequest
  asks : Option Text → AuthRequest
  changes_password : Headers → Text → Text → AuthRequest
  logs_out : Headers → AuthRequest
  takes_over : Text → Text → Text → AuthRequest
  resets_password : Option Text → Text → AuthRequest
  opens_session : Option Text → Text → AuthRequest
  starts : Option Text → Text → AuthRequest

abbrev pub synced : Db → Result (Db × Bool) → Db
synced db (err e) = db
synced db (ok (db', created)) = db'

pub handle : Env → Auth → ℕ × AuthRequest → Auth
handle env a (now, sets_up raw password id token) = (setup env a now raw password id token).0
handle env a (now, logs_in raw password token) = (login env a now raw password token).0
handle env a (now, asks token) = record a { db = (current_user a.db now token).0 }
handle env a (now, changes_password headers old new) = record a {
  db = (change_password env a.db now headers old new).0;
}
handle env a (now, logs_out headers) = record a { db = logout a.db headers }
handle env a (now, takes_over raw hash fresh_id) = record a {
  db = synced a.db (auth_sync env.conflict_text a.db raw hash fresh_id);
}
handle env a (now, resets_password given password) = record a {
  db = reset_password env a.db given password;
}
handle env a (now, opens_session given token) = record a {
  db = issue_session_cli env a.db now given token;
}
handle env a (now, starts configured fresh_id) = record a {
  db = ensure_initial_admin env a.db configured fresh_id;
}

pub handle_all : Env → Auth → List (ℕ × AuthRequest) → Auth
handle_all env a [] = a
handle_all env a (r ∷ rs) = handle_all env (handle env a r) rs

synced-DbInv :
    (db : Db) (r : Result (Db × Bool))
    → DbInv db
    → ((db' : Db) (created : Bool) → r ≡ ok (db', created) → DbInv db')
    → DbInv (synced db r)
synced-DbInv db (err e) inv f = inv
synced-DbInv db (ok (db', created)) inv f = f db' created refl

handle-DbInv : (env : Env) (a : Auth) (r : ℕ × AuthRequest) → DbInv a.db → DbInv (handle env a r).db
unfolding handle change_password
handle-DbInv env a (now, sets_up raw password id token) inv =
    setup-DbInv env a now raw password id token inv
handle-DbInv env a (now, logs_in raw password token) inv =
    login-DbInv env a now raw password token inv
handle-DbInv env a (now, asks token) inv = current_user-DbInv a.db now token inv
handle-DbInv env a (now, changes_password headers old new) inv =
    change_for-DbInv env (current_user a.db now (read_token headers)) old new
      (current_user-DbInv a.db now (read_token headers) inv)
handle-DbInv env a (now, logs_out headers) inv = logout-DbInv a.db headers inv
handle-DbInv env a (now, takes_over raw hash fresh_id) inv =
    synced-DbInv a.db (auth_sync env.conflict_text a.db raw hash fresh_id) inv
      (λ db' created h. auth_sync-DbInv env.conflict_text a.db db' raw hash fresh_id created inv h)
handle-DbInv env a (now, resets_password given password) inv =
    reset_password-DbInv env a.db given password inv
handle-DbInv env a (now, opens_session given token) inv =
    issue_session_cli-DbInv env a.db now given token inv
handle-DbInv env a (now, starts configured fresh_id) inv =
    ensure_initial_admin-DbInv env a.db configured fresh_id inv

-- Whatever requests and commands come, of those in `AuthRequest`, in whatever order: no two accounts share
-- an identifier or a name, no two sessions a token, and each session is of a stored account.
pub handle_all-DbInv :
    (env : Env) (a : Auth) (rs : List (ℕ × AuthRequest))
    → DbInv a.db
    → DbInv (handle_all env a rs).db
unfolding handle_all
handle_all-DbInv env a [] inv = inv
handle_all-DbInv env a (r ∷ rs) inv =
    handle_all-DbInv env (handle env a r) rs (handle-DbInv env a r inv)
