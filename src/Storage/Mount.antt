-- ===== src/Storage/Mount.antt =====
-- The arguments of `mount` in src/storage.rs: `build_mount_spec_parts`, `append_mount_default`, the name
-- and the content of the credentials file, and `normalize_hosts`.
pub mod Options
use Prim.Native.Nat.{bit_xor}
use cangling_update.Base.{
  ℕ, zero, suc, ◌+◌, ◌-◌, ◌*◌, ◌/◌, ◌%◌, ◌^◌, Bool, ◌||◌, List, [], ◌∷◌, ◌++◌, Option, none, some,
  ltb, ◌==◌, if◌then◌else◌, is_empty, any,
}
use cangling_update.Text.{
  Text, text, text_eq, trim, trim_matches, trim_start_matches, split, split_once,
  eq_ignore_ascii_case, has,
}
use cangling_update.Errors.{bad_request, internal, Result, ok, err, ◌>>=◌}

abbrev pub key_of : Text → Option (Text × Text) → Text
key_of part none = trim part
key_of part (some (k, v)) = trim k

abbrev pub is_key : Text → Text → Bool
is_key key part = eq_ignore_ascii_case (key_of part (split_once b'=' (trim part))) key

unfoldable pub has_option : Text → Text → Bool
has_option options key = any (is_key key) (split b',' options)

abbrev pub with_comma : Text → Text
with_comma options = if is_empty options then [] else options ++ b',' ∷ []

unfoldable pub append_mount_default : Text → Text → Text → Text
append_mount_default options key value =
    if has_option options key then options else with_comma options ++ (key ++ (b'=' ∷ value))

abbrev pub Spec : Type 0
Spec = Text × Text × Text

unfoldable pub nfs_spec : Text → Text → Text → Result Spec
nfs_spec server share options =
    let host = trim server in
    let dir = trim share in
    if is_empty host || is_empty dir
    then err (bad_request (text "请填写 NFS 服务器与共享路径"))
    else ok (text "nfs", host ++ (b':' ∷ trim_start_matches (λ c. c == b':') dir), trim options)

abbrev pub slashes : ℕ → Bool
slashes c = c == b'/'

abbrev pub add_defaults : Text → Text
add_defaults opts =
    append_mount_default
      (append_mount_default
        (append_mount_default
          (append_mount_default (append_mount_default opts (text "vers") (text "3.0")) (text "uid")
            (text "0"))
          (text "gid") (text "0"))
        (text "file_mode") (text "0660"))
      (text "dir_mode") (text "0770")

abbrev pub access_option : Text → Option Text → Result Text
access_option username credentials_file =
    if is_empty username then ok (text "guest") else elim credentials_file [
      | none ↦ err (internal (text "缺少 CIFS 凭据文件"))
      | some file ↦ ok (text "credentials=" ++ file)
    ]

unfoldable pub cifs_spec : Text → Text → Text → Option Text → Text → Result Spec
cifs_spec server share username credentials_file options =
    let host = trim_matches slashes (trim server) in
    let dir = trim_matches slashes (trim share) in
    if is_empty host || is_empty dir then err (bad_request (text "请填写 CIFS 服务器与共享名称")) else (do
      access ← access_option username credentials_file
      ok (
        text "cifs",
        text "//" ++ (host ++ (b'/' ∷ dir)),
        add_defaults (with_comma (trim options) ++ access),
      ))

unfoldable pub build_mount_spec_parts : Text → Text → Text → Text → Option Text → Text → Result Spec
unfolding nfs_spec cifs_spec
build_mount_spec_parts protocol server share username credentials_file options =
    if text_eq (trim protocol) (text "nfs")
    then nfs_spec server share options
    else cifs_spec server share username credentials_file options

-- FNV-1a over the bytes of the mount point; `bytes` is its UTF-8 form.
unfoldable pub fnv1a : ℕ → Text → ℕ
fnv1a hash [] = hash
fnv1a hash (b ∷ bytes) = fnv1a (bit_xor hash b * 0x100000001b3 % 2 ^ 64) bytes

abbrev pub hex_digit : ℕ → ℕ
hex_digit d = if ltb d 10 then b'0' + d else b'a' + (d - 10)

unfoldable pub hex : ℕ → ℕ → Text → Text
hex zero n rest = rest
hex (suc width) n rest = hex width (n / 16) (hex_digit (n % 16) ∷ rest)

unfoldable pub credentials_file_path : Text → Text
unfolding fnv1a hex
credentials_file_path bytes =
    text "/etc/cangling-update/storage-"
    ++ hex 16 (fnv1a 0xcbf29ce484222325 bytes) (text ".credentials")

-- What `write_credentials_file` writes, or refuses to write.
unfoldable pub credentials_content : Text → Text → Result Text
credentials_content username password =
    if has b'\n' username || has b'\r' username || has b'\n' password || has b'\r' password
    then err (bad_request (text "CIFS 用户名和密码不能包含换行符"))
    else ok
        (text "username=" ++ (username ++ (b'\n' ∷ (text "password=" ++ (password ++ b'\n' ∷ [])))))

abbrev pub add_host : List Text → Text → List Text
add_host out h =
    if is_empty h
    then if any is_empty out then out else out ++ [] ∷ []
    else if any (λ x. text_eq x h) out
    then out
    else out ++ h ∷ []

unfoldable pub collect_hosts : List Text → List Text → List Text
collect_hosts out [] = out
collect_hosts out (raw ∷ rest) = collect_hosts (add_host out (trim raw)) rest

-- Once each, in order, and the empty name of this host if there is none.
unfoldable pub normalize_hosts : List Text → List Text
unfolding collect_hosts
normalize_hosts host_ids =
    let out = collect_hosts [] host_ids in if is_empty out then [] ∷ [] else out
