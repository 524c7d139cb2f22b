-- ===== src/Storage/Validate.antt =====
-- The checks of src/storage.rs on single fields.
use cangling_update.Base.{
  ℕ, Bool, false, not, ◌||◌, List, [], ◌∷◌, ◌++◌, Option, none, some, ltb, ◌==◌, if◌then◌else◌,
  is_empty, any, all, keep, map,
}
use Prim.Native.String.{String}
use cangling_update.Text.{
  Text, text, text_eq, trim, len, lines, split_once, eq_ignore_ascii_case, is_ascii_alphanumeric,
  is_whitespace,
}
use cangling_update.Errors.{bad_request, Result, ok, err, ◌>>◌, refuse_if}

abbrev pub starts_char : ℕ → Text → Bool
starts_char q [] = false
starts_char q (c ∷ cs) = c == q

-- `Path::is_absolute`.
abbrev pub is_absolute : Text → Bool
is_absolute = starts_char b'/'

abbrev pub is_option_char : ℕ → Bool
is_option_char c =
    is_ascii_alphanumeric c || c == b',' || c == b'=' || c == b'_' || c == b'-' || c == b'.'

unfoldable pub validate_nfs_export_options : Text → Result (Unit {0})
validate_nfs_export_options options =
    let value = trim options in
    if is_empty value
    then ok tt
    else if any (λ c. not (is_option_char c)) value
    then err (bad_request (text "NFS 导出选项只能包含字母、数字、逗号、等号、点、下划线和短横线"))
    else ok tt

unfoldable pub validate_nfs_export_path : Text → Result (Unit {0})
validate_nfs_export_path path =
    refuse_if (any (λ c. is_whitespace c || c == b'(' || c == b')') path)
      (bad_request (text "NFS 共享目录不能包含空白字符或括号"))

abbrev pub is_forbidden_in_share : ℕ → Bool
is_forbidden_in_share c =
    c == b'/' || c == b'\\' || c == b'[' || c == b']' || c == 0 || c == b'\n' || c == b'\r'

unfoldable pub sanitize_share_name : Text → Result Text
sanitize_share_name raw =
    let name = trim raw in
    if is_empty name
    then err (bad_request (text "共享名称不能为空"))
    else if any is_forbidden_in_share name
    then err (bad_request (text "共享名称包含非法字符"))
    else ok name

abbrev pub is_account_char : ℕ → Bool
is_account_char c = is_ascii_alphanumeric c || c == b'_' || c == b'-'

unfoldable pub validate_storage_username : Text → Result (Unit {0})
validate_storage_username raw =
    let username = trim raw in
    if text_eq username (text "root")
    then err (bad_request (text "存储账号不能使用 root，请使用专用账号"))
    else if is_empty username || ltb 32 (len username) || not (all is_account_char username)
    then err (bad_request (text "存储用户名只能包含字母、数字、下划线或短横线，且最长 32 个字符"))
    else ok tt

abbrev pub managed : List String
managed =
    "path" ∷ "read only" ∷ "guest ok" ∷ "valid users" ∷ "force user" ∷ "create mask"
    ∷ "directory mask" ∷ "force create mode" ∷ "force directory mode" ∷ []

abbrev pub is_managed : Text → Bool
is_managed key = any (λ (m : String). eq_ignore_ascii_case key (text m)) managed

abbrev pub check_setting : Option (Text × Text) → Result (Unit {0})
check_setting none = ok tt
check_setting (some (key, value)) =
    refuse_if (is_managed (trim key))
      (bad_request (text "Samba 选项 " ++ (trim key ++ text " 由系统管理，不能在高级选项中覆盖")))

unfoldable pub check_line : Text → Result (Unit {0})
check_line line =
    if starts_char b'[' line
    then err (bad_request (text "Samba 高级选项不能定义新的共享段"))
    else check_setting (split_once b'=' line)

unfoldable pub check_lines : List Text → Result (Unit {0})
check_lines [] = ok tt
check_lines (l ∷ ls) = check_line l >> check_lines ls

unfoldable pub validate_samba_options : Text → Result (Unit {0})
unfolding check_lines check_line
validate_samba_options options =
    check_lines (keep (λ l. not (is_empty l)) (map trim (lines options)))
