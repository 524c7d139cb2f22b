-- ===== src/Paths.antt =====
-- Names and texts that src/paths.rs reads: file names, compose files and .env files. `file_name` is
-- `Path::file_name` on Unix. `bail!` is an internal error here; the messages of the .env check do not carry
-- the number of the line.
pub mod Names
use cangling_update.Base.{
  ℕ, suc, ◌+◌, Bool, true, false, not, ◌&&◌, ◌||◌, List, [], ◌∷◌, ◌++◌, Option, none, some, ltb,
  ◌==◌, if◌then◌else◌, is_empty, any, all, keep, get_or,
}
use cangling_update.Text.{
  Text, text, text_eq, one_of, trim, trim_start, trim_matches, split, split_once, starts_with,
  ends_with, strip_prefix, strip_suffix, contains, has, to_ascii_lowercase, lines, is_whitespace,
  is_ascii_alphabetic, is_ascii_alphanumeric,
}
use cangling_update.Errors.{bad_request, internal, Result, ok, err, ◌>>=◌, ◌>>◌, refuse_if}

abbrev pub is_component : Text → Bool
is_component c = not (is_empty c) && not (text_eq c (text "."))

abbrev pub last_of : List Text → Option Text
last_of [] = none
last_of (c ∷ []) = some c
last_of (c ∷ d ∷ cs) = last_of (d ∷ cs)

abbrev pub normal : Option Text → Option Text
normal none = none
normal (some c) = if text_eq c (text "..") then none else some c

unfoldable pub file_name : Text → Option Text
file_name path = normal (last_of (keep is_component (split b'/' path)))

abbrev pub is_separator : ℕ → Bool
is_separator c = c == b'/' || c == b'\\' || c == 0

unfoldable pub safe_filename : Text → Result Text
safe_filename name = do
  let base = trim (get_or (file_name name) [])
  refuse_if (is_empty base || text_eq base (text ".") || text_eq base (text ".."))
      (internal (text "无效的文件名"))
  refuse_if (any is_separator base) (internal (text "无效的文件名"))
  ok base

unfoldable pub is_image_archive_name : Text → Bool
is_image_archive_name name =
    let lower = to_ascii_lowercase name in
    ends_with (text ".tar.gz") lower
    || ends_with (text ".tgz") lower
    || ends_with (text ".tar") lower

unfoldable pub is_jar_name : Text → Bool
is_jar_name name = ends_with (text ".jar") (to_ascii_lowercase name)

unfoldable pub is_uploadable_name : Text → Bool
unfolding is_image_archive_name is_jar_name
is_uploadable_name name = is_image_archive_name name || is_jar_name name

abbrev pub is_quotation : ℕ → Bool
is_quotation c = c == b'"' || c == b'\''

abbrev pub add_image : List Text → Option Text → List Text
add_image images none = images
add_image images (some rest) =
    let value = trim_matches is_quotation (trim rest) in
    if is_empty value || any (λ e. text_eq e value) images then images else images ++ value ∷ []

unfoldable pub collect_images : List Text → List Text → List Text
collect_images images [] = images
collect_images images (raw ∷ rest) =
    collect_images (add_image images (strip_prefix (text "image:") (trim raw))) rest

unfoldable pub parse_compose_images : Text → List Text
unfolding collect_images
parse_compose_images compose_text = collect_images [] (lines compose_text)

pub record JarMount : Type 0 where
  pub service : Text
  pub host_path : Text
  pub basename : Text

abbrev pub leading_spaces : Text → ℕ
leading_spaces [] = 0
leading_spaces (c ∷ cs) = let rest = leading_spaces cs in if c == b' ' then suc rest else 0

abbrev pub before_colon : List Text → Text
before_colon [] = []
before_colon (w ∷ ws) = trim w

abbrev pub host_of : Option Text → Option Text
host_of none = none
host_of (some rest) =
    let item = trim_matches is_quotation (trim rest) in
    let host = before_colon (split b':' item) in
    if not (contains (text ".jar") item) || is_empty host then none else some host

-- `- host:container` with a jar in it.
unfoldable pub volume_host_path : Text → Option Text
volume_host_path raw = host_of (strip_prefix (b'-' ∷ []) (trim raw))

abbrev pub named_service : Text → Option Text → Text
named_service current none = current
named_service current (some name) =
    if not (is_empty name)
      && not (has b' ' name)
      && not (has b':' name)
      && not (starts_with (text "#") name)
    then name
    else current

-- A line that is indented by two blanks and ends in a colon starts a service.
unfoldable pub service_after : Text → Text → Text
service_after current raw =
    if leading_spaces raw == 2
    then named_service current (strip_suffix (text ":") (trim raw))
    else current

abbrev pub based : Text → Text → Option Text → List JarMount
based service host none = []
based service host (some base) =
    if not (is_jar_name base) || is_empty service
    then []
    else record { service = service; host_path = host; basename = base } ∷ []

abbrev pub mount_of : Text → Option Text → List JarMount
mount_of service none = []
mount_of service (some host) = based service host (file_name host)

unfoldable pub jar_mounts : Text → List Text → List JarMount
unfolding volume_host_path service_after
jar_mounts current [] = []
jar_mounts current (raw ∷ rest) =
    let service = service_after current raw in
    mount_of service (volume_host_path raw) ++ jar_mounts service rest

unfoldable pub parse_compose_jar_mounts : Text → List JarMount
unfolding jar_mounts
parse_compose_jar_mounts compose_text = jar_mounts [] (lines compose_text)

abbrev pub starts_env_key : Text → Bool
starts_env_key [] = false
starts_env_key (c ∷ cs) =
    (is_ascii_alphabetic c || c == b'_') && all (λ x. is_ascii_alphanumeric x || x == b'_') cs

unfoldable pub is_env_key : Text → Bool
is_env_key key = starts_env_key key

abbrev pub starts_blank : Text → Bool
starts_blank [] = true
starts_blank (c ∷ cs) = is_whitespace c

abbrev pub exported : Text → Option Text → Text
exported trimmed none = trimmed
exported trimmed (some s) = if starts_blank s then trim_start s else trimmed

abbrev pub check_key : Option (Text × Text) → Result (Unit {0})
check_key none = err (internal (text "不是 KEY=VALUE 或注释"))
check_key (some (key, value)) = refuse_if (not (is_env_key (trim key))) (internal (text "变量名无效"))

unfoldable pub check_env_line : Text → Result (Unit {0})
unfolding is_env_key
check_env_line line =
    let trimmed = trim line in
    if is_empty trimmed || starts_with (text "#") trimmed
    then ok tt
    else check_key (split_once b'=' (exported trimmed (strip_prefix (text "export") trimmed)))

unfoldable pub check_env_lines : List Text → Result (Unit {0})
unfolding check_env_line
check_env_lines [] = ok tt
check_env_lines (line ∷ rest) = check_env_line line >> check_env_lines rest

-- `size` is the length of the text in bytes.
unfoldable pub validate_env_text : Text → ℕ → Result (Unit {0})
unfolding check_env_lines
validate_env_text content size = do
  refuse_if (ltb 0x100000 size) (internal (text ".env 文件不能超过 1 MB"))
  refuse_if (has 0 content) (internal (text ".env 文件不能包含空字节"))
  check_env_lines (lines content)
