-- ===== src/Sql/Quote.antt =====
-- Names, literals and values of src/dbadmin.rs. A JSON number is held as serde prints it, and a list
-- or object by its JSON text.
use cangling_update.Base.{
  ℕ, Bool, false, not, ◌&&◌, ◌||◌, [], ◌∷◌, ◌++◌, Option, ltb, leb, ◌==◌, if◌then◌else◌, is_empty,
  all, get_or,
}
use cangling_update.Text.{Text, text, text_eq, one_of, trim, len, contains, is_ascii_alphanumeric}
use cangling_update.Errors.{bad_request, Result, ok, err, ◌>>=◌}

abbrev pub default_limit : ℕ
default_limit = 50

abbrev pub max_limit : ℕ
max_limit = 200

unfoldable pub clamp_limit : Option ℕ → ℕ
clamp_limit limit =
    let n = get_or limit default_limit in
    if ltb n 1 then 1 else if ltb max_limit n then max_limit else n

unfoldable pub require_engine : Option Text → Result (Unit {0})
require_engine engine =
    let name = get_or engine (text "postgres") in
    if one_of name ("postgres" ∷ "postgresql" ∷ "postgis" ∷ [])
    then ok tt
    else err (bad_request (text "暂不支持数据库类型：" ++ name))

abbrev pub starts_alphanumeric : Text → Bool
starts_alphanumeric [] = false
starts_alphanumeric (c ∷ cs) = is_ascii_alphanumeric c

abbrev pub is_name_char : ℕ → Bool
is_name_char c = is_ascii_alphanumeric c || c == b'_' || c == b'-'

-- The tests on bytes are tests on code points here: a byte of a longer code point passes none of them.
unfoldable pub is_safe_sql_name : Text → Bool
is_safe_sql_name name =
    not (is_empty name)
    && leb (len name) 128
    && not (contains (text "..") name)
    && starts_alphanumeric name
    && all is_name_char name

-- `s.replace(q, qq)`.
unfoldable pub doubled : ℕ → Text → Text
doubled q [] = []
doubled q (c ∷ cs) = if c == q then c ∷ c ∷ doubled q cs else c ∷ doubled q cs

unfoldable pub quoted : ℕ → Text → Text
unfolding doubled
quoted q s = q ∷ (doubled q s ++ q ∷ [])

unfoldable pub quote_ident : Text → Result Text
quote_ident name =
    if not (is_safe_sql_name name)
    then err (bad_request (text "无效的名称：" ++ name))
    else ok (quoted b'"' name)

unfoldable pub sql_literal : Text → Text
sql_literal s = quoted b'\'' s

pub data Json : Type 0 where
  null : Json
  bool : Bool → Json
  number string other : Text → Json

unfoldable pub sql_value : Json → Text
sql_value null = text "NULL"
sql_value (bool b) = if b then text "TRUE" else text "FALSE"
sql_value (number printed) = printed
sql_value (string s) = sql_literal s
sql_value (other printed) = sql_literal printed ++ text "::jsonb"

unfoldable pub sql_eq : Text → Json → Text
sql_eq ident null = ident ++ text " IS NULL"
sql_eq ident v = ident ++ (text " IS NOT DISTINCT FROM " ++ sql_value v)

pub record RowFilter : Type 0 where
  pub column : Text
  pub op : Text
  pub value : Text

unfoldable pub filter_with : Text → Text → Text → Text
filter_with ident lit op =
    let low = text "lower(" ++ (ident ++ text "::text)") in
    let low_val = text "lower(" ++ (lit ++ text ")") in
    if text_eq op (text "eq")
    then low ++ (text " = " ++ low_val)
    else if text_eq op (text "neq")
    then low ++ (text " <> " ++ low_val)
    else if text_eq op (text "prefix")
    then text "left(" ++ (low ++ (text ", char_length(" ++ (lit ++ (text ")) = " ++ low_val))))
    else if text_eq op (text "suffix")
    then text "right(" ++ (low ++ (text ", char_length(" ++ (lit ++ (text ")) = " ++ low_val))))
    else text "strpos(" ++ (low ++ (text ", " ++ (low_val ++ text ") > 0")))

unfoldable pub row_filter_clause : RowFilter → Result Text
unfolding filter_with
row_filter_clause filter = do
  ident ← quote_ident filter.column
  let value = trim filter.value
  ok (if is_empty value then [] else filter_with ident (sql_literal value) filter.op)
