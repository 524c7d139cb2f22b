-- ===== src/Auth/Gate.antt =====
-- Which requests need a session: `is_public`, `require_auth` and `auth_status` of src/auth.rs.
use cangling_update.Base.{
  ℕ, Bool, false, not, ◌&&◌, ◌||◌, List, [], ◌∷◌, Option, none, some, ◌==◌, if◌then◌else◌, is_empty,
}
use Prim.Native.String.{String}
use cangling_update.Text.{
  Text, text, text_eq, one_of, strip_prefix, starts_with, ends_with, split_once,
}
use cangling_update.Errors.{unauthorized, Result, ok, err}
use cangling_update.Auth.Tables.{Db, user_count}
use cangling_update.Auth.Tokens.{Headers, or_else, read_token, token_from_query}
use cangling_update.Auth.Session.{SessionUser, current_user, idle_timeout_secs}

abbrev pub is_suffix : List String → Option (Text × Text) → Bool
is_suffix names none = false
is_suffix names (some (prefix, suffix)) = not (is_empty prefix) && one_of suffix names

abbrev pub rest_is : List String → Option Text → Bool
rest_is names none = false
rest_is names (some rest) = is_suffix names (split_once b'/' rest)

-- One of the names behind one component that is not empty.
unfoldable pub below_prefix : List String → Text → Bool
below_prefix names path = rest_is names (strip_prefix (b'/' ∷ []) path)

unfoldable pub is_image_bot_path : Text → Bool
is_image_bot_path path =
    one_of path ("/image-bot.svg" ∷ "/login-illustration.svg" ∷ [])
    || below_prefix ("image-bot.svg" ∷ "login-illustration.svg" ∷ []) path

unfoldable pub is_certificate_help_path : Text → Bool
is_certificate_help_path path =
    one_of path ("/help-cert" ∷ "/help-cert/" ∷ "/help-cert/cangling-root-ca.crt" ∷ [])
    || below_prefix ("help-cert" ∷ "help-cert/" ∷ "help-cert/cangling-root-ca.crt" ∷ []) path

unfoldable pub is_tunnel_path : Text → Bool
is_tunnel_path path =
    text_eq path (text "/api/tunnel/ws") || below_prefix ("api/tunnel/ws" ∷ []) path

abbrev pub is_hostinfo_path : Text → Bool
is_hostinfo_path path = one_of path ("/hostinfo" ∷ "/hostinfo.md" ∷ [])

abbrev pub machine_paths : List String
machine_paths =
    "/api/cluster/register" ∷ "/api/cluster/heartbeat" ∷ "/api/cluster/repo"
    ∷ "/api/cluster/init/run" ∷ "/api/cluster/auth/sync" ∷ "/api/cluster/storage/start-share"
    ∷ "/api/cluster/storage/mount" ∷ "/api/cluster/storage/unmount" ∷ "/api/cluster/zot/environment"
    ∷ "/api/cluster/self-update" ∷ "/api/cluster/images" ∷ "/api/cluster/images/import"
    ∷ "/api/cluster/images/delete" ∷ []

-- The interfaces between machines, which `require_cluster_token` guards.
unfoldable pub is_machine_path : Text → Bool
is_machine_path path =
    one_of path machine_paths
    || starts_with (text "/api/cluster/self-update/") path
    || starts_with (text "/api/cluster/images/jobs/") path
    || starts_with (text "/api/cluster/images/archive/") path
    || starts_with (text "/api/cluster/repo/") path && ends_with (text "/download") path

abbrev pub is_login_path : Text → Bool
is_login_path path =
    one_of path
      ("/api/auth/status" ∷ "/api/auth/login" ∷ "/api/auth/setup" ∷ "/api/auth/logout" ∷ [])

abbrev pub pages : List String
pages = "/" ∷ "/console" ∷ []

-- `get` tells whether the method is GET.
unfoldable pub is_public : Bool → Text → Bool
is_public get path =
    starts_with (text "/vendor/") path
    || one_of path pages
    || get && is_certificate_help_path path
    || get && is_image_bot_path path
    || is_login_path path
    || get && is_tunnel_path path
    || is_machine_path path

pub record Request : Type 0 where
  pub get : Bool
  pub path : Text
  pub query : Option Text
  pub headers : Headers
  pub loopback : Bool

abbrev pub is_open : Request → Bool
is_open r = is_public r.get r.path || is_hostinfo_path r.path && r.loopback

abbrev pub request_token : Request → Option Text
request_token r = or_else (read_token r.headers) (token_from_query r.query)

abbrev pub let_in : Option Text → Db × Option SessionUser → Db × Result (Option Text)
let_in token (db, none) = (db, err (unauthorized (text "请先登录或登录已过期")))
let_in token (db, some user) = (db, ok token)

-- `ok` passes the request on to its handler, and gives the token that the answer sets as a cookie.
unfoldable pub require_auth : Db → ℕ → Request → Db × Result (Option Text)
require_auth db now r =
    if is_open r
    then (db, ok none)
    else let token = request_token r in let_in token (current_user db now token)

pub record AuthStatus : Type 0 where
  pub needs_setup : Bool
  pub user : Option SessionUser
  pub idle_timeout : ℕ

unfoldable pub auth_status : Db → ℕ → Headers → Db × AuthStatus
auth_status db now headers =
    let (after, user) = current_user db now (read_token headers) in
    (
      after,
      record { needs_setup = user_count db == 0; user = user; idle_timeout = idle_timeout_secs },
    )
