-- ===== src/Auth/Tokens.antt =====
-- Where src/auth.rs finds the token of a request, and what it takes for a user name.
use cangling_update.Base.{
  ℕ, Bool, not, ◌||◌, List, [], ◌∷◌, Option, none, some, ltb, ◌==◌, if◌then◌else◌, is_empty, all,
  ◌>>=◌,
}
use cangling_update.Text.{
  Text, text, text_eq, trim, split, split_once, strip_prefix, len, is_ascii_alphanumeric,
}
use cangling_update.Errors.{bad_request, Result, ok, err}

-- The headers as text; one that is missing, or that `to_str` refuses, is `none`.
pub record Headers : Type 0 where
  pub authorization : Option Text
  pub cookie : Option Text

abbrev non_empty : Text → Option Text
non_empty t = if is_empty t then none else some t

abbrev pub or_else {ℓ} : {A : Type ℓ} → Option A → Option A → Option A
or_else none o = o
or_else (some a) o = some a

unfoldable pub bearer : Text → Option Text
bearer header =
    let auth = trim header in
    do
      token ← or_else (strip_prefix (text "Bearer ") auth) (strip_prefix (text "bearer ") auth)
      non_empty (trim token)

unfoldable pub cookie_token : List Text → Option Text
cookie_token [] = none
cookie_token (part ∷ parts) =
    let rest = cookie_token parts in
    or_else (strip_prefix (text "cangling_session=") (trim part)) rest

unfoldable pub read_token : Headers → Option Text
unfolding bearer cookie_token
read_token h =
    or_else (do header ← h.authorization; bearer header)
      (do cookie ← h.cookie; cookie_token (split b';' cookie))

unfoldable pub token_in : List Text → Option Text
token_in [] = none
token_in (pair ∷ pairs) =
    let rest = token_in pairs in
    elim (split_once b'=' pair) [
      | none ↦ rest
      | some (k, v) ↦
          if text_eq k (text "token") || text_eq k (text "access_token")
          then or_else (non_empty (trim v)) rest
          else rest
    ]

unfoldable pub token_from_query : Option Text → Option Text
unfolding token_in
token_from_query query = do q ← query; token_in (split b'&' q)

abbrev pub is_name_char : ℕ → Bool
is_name_char c = is_ascii_alphanumeric c || c == b'_' || c == b'-'

unfoldable pub normalize_username : Text → Result Text
normalize_username raw =
    let name = trim raw in
    if ltb (len name) 2 || ltb 32 (len name)
    then err (bad_request (text "用户名长度需要 2–32 个字符"))
    else if not (all is_name_char name)
    then err (bad_request (text "用户名只能包含字母、数字、下划线或短横线"))
    else ok name
