-- ===== src/Docker.antt =====
-- The names that src/docker.rs passes to docker, and its reading of what docker prints.
use cangling_update.Base.{
  ℕ, Bool, false, not, ◌&&◌, ◌||◌, ◌==◌, List, [], ◌∷◌, ◌++◌, Option, none, some, leb, all,
  if◌then◌else◌, is_empty, get_or,
}
use cangling_update.Text.{
  Text, text, trim, lines, strip_prefix, starts_with, contains, is_ascii_alphanumeric,
  is_ascii_alphabetic, len,
}
use cangling_update.Errors.{Result, internal, refuse_if}

abbrev pub is_service_char : ℕ → Bool
is_service_char c = is_ascii_alphanumeric c || c == b'-' || c == b'_' || c == b'.'

unfoldable pub is_safe_service_name : Text → Bool
is_safe_service_name name =
    not (is_empty name)
    && leb (len name) 128
    && not (contains (text "..") name)
    && all is_service_char name

unfoldable pub validate_service_name : Text → Result (Unit {0})
unfolding is_safe_service_name
validate_service_name name = refuse_if (not (is_safe_service_name name)) (internal (text "无效的服务名"))

abbrev starts_alphabetic : Text → Bool
starts_alphabetic [] = false
starts_alphabetic (c ∷ cs) = is_ascii_alphabetic c

unfoldable pub is_safe_unix_user : Text → Bool
is_safe_unix_user name =
    not (is_empty name)
    && leb (len name) 32
    && starts_alphabetic name
    && all (λ c. is_ascii_alphanumeric c || c == b'_' || c == b'-') name

unfoldable pub is_safe_env_key : Text → Bool
is_safe_env_key name =
    not (is_empty name)
    && leb (len name) 64
    && starts_alphabetic name
    && all (λ c. is_ascii_alphanumeric c || c == b'_') name

-- The name behind one of the two prefixes.
abbrev loaded_name : Text → Option Text
loaded_name line = elim (strip_prefix (text "Loaded image: ") line) [
  | some rest ↦ some (trim rest)
  | none ↦ elim (strip_prefix (text "Loaded image ID: ") line) [
    | some rest ↦ some (trim rest)
    | none ↦ none
  ]
]

abbrev loaded_in : List Text → List Text
loaded_in [] = []
loaded_in (l ∷ ls) =
    let rest = loaded_in ls in
    elim (loaded_name (trim l)) [
      | none ↦ rest
      | some name ↦ if is_empty name then rest else name ∷ rest
    ]

unfoldable pub parse_loaded_images : Text → List Text
unfolding lines
parse_loaded_images stdout = loaded_in (lines stdout)

-- A text without its last colon and what follows, if no slash comes after that.
abbrev pub untagged : Text → Option Text
untagged [] = none
untagged (c ∷ cs) =
    let rest = untagged cs in
    elim rest [
      | some name ↦ some (c ∷ name)
      | none ↦ if c == b':' && all (λ d. not (d == b'/')) cs then some [] else none
    ]

unfoldable pub to_latest_tag : Text → Option Text
to_latest_tag image =
    if starts_with (text "sha256:") image
    then none
    else let name = get_or (untagged image) image in
      if is_empty name then none else some (name ++ text ":latest")
