-- ===== src/Storage/Normalize.antt =====
-- `normalize` of src/storage.rs: what a form becomes before it is stored. The table of nodes gives the
-- name of a host; the new identifier and the time are arguments.
pub mod Accepted
pub mod Sound
use cangling_update.Base.{
  ℕ, Bool, true, false, not, ◌&&◌, ◌||◌, List, [], ◌∷◌, Option, none, some, ◌==◌, if◌then◌else◌,
  is_empty, get_or, any,
}
use cangling_update.Text.{Text, text, text_eq, trim, has}
use cangling_update.Errors.{bad_request, Result, ok, err, ◌>>=◌, ◌>>◌, refuse_if}
use cangling_update.Storage.Validate.{
  is_absolute, validate_nfs_export_options, validate_nfs_export_path, validate_storage_username,
  validate_samba_options,
}

pub record Storage : Type 0 where
  pub id : Text
  pub name : Text
  pub kind : Text
  pub protocol : Text
  pub host_id : Text
  pub host_name : Text
  pub server : Text
  pub share : Text
  pub path : Text
  pub target_dir : Text
  pub username : Text
  pub password : Text
  pub options : Text
  pub status : Text
  pub message : Text
  pub created_at : Text
  pub updated_at : Text

pub record StorageBody : Type 0 where
  pub name : Text
  pub kind : Text
  pub protocol : Text
  pub host_id : Text
  pub host_name : Text
  pub server : Text
  pub share : Text
  pub path : Text
  pub target_dir : Text
  pub username : Text
  pub password : Text
  pub options : Text

abbrev pub kind_external : Text
kind_external = text "external"

abbrev pub kind_host_share : Text
kind_host_share = text "host_share"

-- An empty password keeps the stored one.
abbrev pub password_of : Option Storage → Text → Text
password_of none p = p
password_of (some e) p = if is_empty p then e.password else p

abbrev pub old_or : Option Storage → (Storage → Text) → Text → Text
old_or none f d = d
old_or (some e) f d = f e

abbrev pub draft : StorageBody → Option Storage → Text → Text → Storage
draft body existing fresh_id now = record {
  id = old_or existing (λ e. e.id) fresh_id;
  name = trim body.name;
  kind = trim body.kind;
  protocol = trim body.protocol;
  host_id = trim body.host_id;
  host_name = trim body.host_name;
  server = trim body.server;
  share = trim body.share;
  path = trim body.path;
  target_dir = trim body.target_dir;
  username = trim body.username;
  password = password_of existing body.password;
  options = trim body.options;
  status = old_or existing (λ e. e.status) (text "defined");
  message = old_or existing (λ e. e.message) [];
  created_at = old_or existing (λ e. e.created_at) now;
  updated_at = now;
}

abbrev pub bad_protocol : Storage → Bool
bad_protocol s = not (text_eq s.protocol (text "cifs")) && not (text_eq s.protocol (text "nfs"))

unfoldable pub check_external : Storage → Result Storage
check_external s = do
  refuse_if (bad_protocol s) (bad_request (text "外部存储协议必须是 cifs 或 nfs"))
  refuse_if (is_empty s.server || is_empty s.share) (bad_request (text "请填写服务器地址与共享路径"))
  refuse_if (is_empty s.target_dir) (bad_request (text "请填写目标目录（挂载点）"))
  ok (record s { path = []; host_id = []; host_name = text "本机" })

unfoldable pub check_cifs_share : Storage → Result Storage
check_cifs_share s = do
  refuse_if (is_empty s.share) (bad_request (text "请填写共享名称"))
  refuse_if (is_empty s.username || is_empty s.password)
      (bad_request (text "主机 CIFS 共享必须填写专用用户名和密码"))
  validate_storage_username s.username
  validate_samba_options s.options
  ok s

-- An NFS client mounts the exported path, not a share name.
unfoldable pub check_nfs_share : Storage → Result Storage
check_nfs_share s = do
  validate_nfs_export_path s.path
  validate_nfs_export_options s.options
  ok (record s { share = s.path; username = []; password = [] })

unfoldable pub name_host : (Text → Option Text) → Storage → Storage
name_host node_name s = record s {
  host_name =
      if is_empty s.host_id
      then text "本机"
      else if is_empty s.host_name
      then get_or (node_name s.host_id) s.host_id
      else s.host_name;
}

unfoldable pub check_host_share : (Text → Option Text) → Storage → Result Storage
check_host_share node_name t = do
  refuse_if (bad_protocol t) (bad_request (text "主机共享协议必须是 cifs 或 nfs"))
  let s = record t { server = [] }
  refuse_if (is_empty s.path) (bad_request (text "请填写要共享的主机目录"))
  refuse_if (not (is_absolute s.path)) (bad_request (text "共享目录必须是绝对路径"))
  refuse_if (is_empty s.target_dir) (bad_request (text "请填写目标目录（挂载点）"))
  refuse_if (not (is_absolute s.target_dir)) (bad_request (text "目标目录（挂载点）必须是绝对路径"))
  checked ← if text_eq s.protocol (text "cifs") then check_cifs_share s else check_nfs_share s
  ok (name_host node_name checked)

unfoldable pub normalize :
    (Text → Option Text) → StorageBody → Option Storage → Text → Text → Result Storage
normalize node_name body existing fresh_id now = do
  let s = draft body existing fresh_id now
  refuse_if (is_empty s.name) (bad_request (text "存储名称不能为空"))
  refuse_if (not (text_eq s.kind kind_external) && not (text_eq s.kind kind_host_share))
      (bad_request (text "存储类型无效"))
  refuse_if (has b'\n' s.password || has b'\r' s.password) (bad_request (text "密码不能包含换行符"))
  if text_eq s.kind kind_external then check_external s else check_host_share node_name s
