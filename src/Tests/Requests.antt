-- ===== src/Tests/Requests.antt =====
-- Requests at the gate of a node.
use cangling_update.Base.{
  ℕ, ◌-◌, ◌*◌, ◌/◌, ◌<◌, [], ◌∷◌, none, some, ◌≡◌, ◌⊎◌, refl, map, true, false,
}
use cangling_update.Text.{Text, text, one_of, split_by, trim_matches, is_whitespace}
use cangling_update.Auth.Guard.{second}
use cangling_update.Auth.Tables.{Db, session_user_id, touch_session, get_user_by_id}
use cangling_update.Auth.Tokens.{read_token, token_from_query, token_in}
use cangling_update.Auth.Session.{current_user, session_expired, idle_timeout_secs}
use cangling_update.Auth.Gate.{
  is_public, is_machine_path, is_tunnel_path, is_image_bot_path, is_certificate_help_path,
  below_prefix, Request, request_token, require_auth,
}
use cangling_update.Auth.Calls.{login_calls, MachineCall}
use cangling_update.Auth.Entry.{is_public_writes, require_auth-ok}

is_public_writes_example :
    (one_of (text "/api/cluster/repo/apt/docker/download") login_calls ≡ true)
    ⊎ MachineCall (text "/api/cluster/repo/apt/docker/download")
is_public_writes_example =
    is_public_writes (text "/api/cluster/repo/apt/docker/download")
      (unfold is_public is_machine_path text in refl) (unfold text in refl)

not_public :
    map
      (λ path. is_public true (text path))
      ("/api/cluster/nodes" ∷ "/api/cluster/repo/ubuntu-x86-22.04-deb/demo"
        ∷ "/api/cluster/packages/abc/file" ∷ "/api/cluster/tasks/run" ∷ "/api/projects" ∷ [])
    ≡ false ∷ false ∷ false ∷ false ∷ false ∷ []
unfolding is_public is_machine_path is_tunnel_path is_image_bot_path is_certificate_help_path
    below_prefix split_by text
not_public = refl

abbrev accounts : Db
accounts = record {
  users = record { id = text "u1"; username = text "admin"; password_hash = text "secret" } ∷ [];
  sessions =
      record { token = text "t1"; user_id = text "u1"; last_seen = second; created_at = 0 } ∷ [];
}

abbrev request : Request
request = record {
  get = true;
  path = text "/api/projects";
  query = some (text "page=1&token=t1");
  headers = record { authorization = none; cookie = none };
  loopback = false;
}

require_auth-ok_example :
    (token id : Text) × (seen : ℕ) × (request_token request ≡ some token)
    × (some (text "t1") ≡ some token)
    × (session_user_id accounts token ≡ some (id, seen))
    × ((9 * second - seen) / second < idle_timeout_secs)
    × (session_user_id (touch_session accounts (9 * second) (text "t1")) token
        ≡ some (id, 9 * second))
require_auth-ok_example =
    require_auth-ok accounts (touch_session accounts (9 * second) (text "t1")) (9 * second) request
      (unfold is_public is_machine_path is_tunnel_path is_image_bot_path is_certificate_help_path
          below_prefix text in
        refl)
      (unfold require_auth is_public is_machine_path is_tunnel_path is_image_bot_path
          is_certificate_help_path below_prefix read_token token_from_query token_in split_by
          trim_matches is_whitespace current_user session_user_id session_expired touch_session
          get_user_by_id text in
        refl)
