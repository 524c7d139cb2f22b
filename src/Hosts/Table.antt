-- ===== src/Hosts/Table.antt =====
-- The table `managed_hosts` of src/hosts.rs and the handlers on it. Reading an address is a parameter: the
-- text of an IP address as it is printed, if a text is one. Times are numbers.
use mathlib.Core.Option.{Option, none, some}
use cangling_update.Base.{
  ℕ, Bool, not, ◌&&◌, ◌||◌, ◌==◌, List, [], ◌∷◌, ◌++◌, ltb, leb, if◌then◌else◌, is_empty, length,
  any, all, keep, find, map, get_or,
}
use cangling_update.Text.{
  Text, text, text_eq, trim, trim_matches, len, is_ascii_alphanumeric, split, split_by, starts_with,
  ends_with,
}
use cangling_update.Errors.{
  Result, ok, err, bad_request, not_found, internal, refuse_if, ◌>>=◌, ◌>>◌,
}

pub record HostRow : Type 0 where
  pub id : Text
  pub name : Text
  pub host : Text
  pub ssh_port : ℕ
  pub username : Text
  pub password_enc : Text
  pub kind : Text
  pub cluster_node_id : Text
  pub created_at : ℕ
  pub updated_at : ℕ

pub record SaveHost : Type 0 where
  pub name : Text
  pub host : Text
  pub ssh_port : Option ℕ
  pub username : Text
  pub password : Text
  pub clear_password : Bool

abbrev pub local_host_id : Text
local_host_id = text "local"

abbrev pub is_bracket : ℕ → Bool
is_bracket c = c == b'[' || c == b']'

abbrev pub is_user_char : ℕ → Bool
is_user_char c = is_ascii_alphanumeric c || c == b'_' || c == b'-' || c == b'.'

abbrev pub trimmed_input : SaveHost → SaveHost
trimmed_input body = record body {
  name = trim body.name;
  host = trim_matches is_bracket (trim body.host);
  username = trim body.username;
  ssh_port = some (get_or body.ssh_port 22);
}

-- `is_ip` tells whether a text is an IP address.
unfoldable pub validate_input : (Text → Bool) → SaveHost → Result SaveHost
validate_input is_ip raw =
    let body = trimmed_input raw in
    refuse_if (is_empty body.name || ltb 80 (length body.name))
      (bad_request (text "主机名称不能为空且不能超过 80 个字符"))
    >> (refuse_if (not (is_ip body.host)) (bad_request (text "主机地址必须是有效的 IPv4 或 IPv6 地址"))
        >> (refuse_if (get_or body.ssh_port 22 == 0) (bad_request (text "SSH 端口必须在 1–65535 之间"))
            >> (refuse_if
                  (is_empty body.username
                    || ltb 32 (len body.username)
                    || not (all is_user_char body.username))
                  (bad_request (text "SSH 用户名只能包含字母、数字、下划线、短横线或点"))
                >> (refuse_if (ltb 512 (len body.password)) (bad_request (text "SSH 密码过长"))
                    >> ok body))))

abbrev is_label : Text → Bool
is_label label =
    not (is_empty label)
    && leb (len label) 63
    && not (starts_with (text "-") label)
    && not (ends_with (text "-") label)
    && all (λ c. is_ascii_alphanumeric c || c == b'-') label

unfoldable pub validate_hostname : Text → Result Text
unfolding split_by
validate_hostname value =
    let name = trim value in
    if not (is_empty name) && leb (len name) 253 && all is_label (split b'.' name)
    then ok name
    else err (bad_request (text "主机名仅允许字母、数字、短横线和点，且每段不能以短横线开头或结尾"))

abbrev pub has_host_id : Text → HostRow → Bool
has_host_id id r = text_eq r.id id

unfoldable pub get_row : List HostRow → Text → Option HostRow
get_row rows id = find (has_host_id id) rows

-- `encrypt` is `encrypt_password` with the key of the node.
unfoldable pub create_host :
    (Text → Bool) → (Text → Text) → List HostRow → ℕ → Text → SaveHost → Result (List HostRow)
unfolding validate_input
create_host is_ip encrypt rows now id body = validate_input is_ip body >>= λ input.
    if any (has_host_id id) rows
    then err (internal (text "UNIQUE constraint failed: managed_hosts.id"))
    else ok (
        rows
        ++ record {
          id = id;
          name = input.name;
          host = input.host;
          ssh_port = get_or input.ssh_port 22;
          username = input.username;
          password_enc = if is_empty input.password then [] else encrypt input.password;
          kind = text "manual";
          cluster_node_id = [];
          created_at = now;
          updated_at = now;
        }
          ∷ [])

abbrev new_password : (Text → Text) → SaveHost → HostRow → Text
new_password encrypt input current =
    if input.clear_password
    then []
    else if is_empty input.password
    then current.password_enc
    else encrypt input.password

abbrev pub saved_row : Text → SaveHost → Text → ℕ → HostRow → HostRow
saved_row id input password_enc now r =
    if has_host_id id r
    then record r {
      name = input.name;
      host = input.host;
      ssh_port = get_or input.ssh_port 22;
      username = input.username;
      password_enc = password_enc;
      updated_at = now;
    }
    else r

unfoldable pub update_host :
    (Text → Bool) → (Text → Text) → List HostRow → ℕ → Text → SaveHost → Result (List HostRow)
unfolding validate_input get_row
update_host is_ip encrypt rows now id body =
    refuse_if (text_eq id local_host_id) (bad_request (text "本机信息由系统维护，不能编辑"))
    >> (validate_input is_ip body >>= λ input. elim (get_row rows id) [
      | none ↦ err (not_found (text "主机不存在"))
      | some current ↦ ok (map (saved_row id input (new_password encrypt input current) now) rows)
    ])

unfoldable pub remove_host : List HostRow → Text → Result (List HostRow)
unfolding get_row
remove_host rows id = elim (get_row rows id) [
  | none ↦ err (not_found (text "主机不存在"))
  | some r ↦
      refuse_if (not (text_eq r.kind (text "manual"))) (bad_request (text "本机和集群自动发现的主机不能删除"))
      >> ok (keep (λ s. not (has_host_id id s)) rows)
]
