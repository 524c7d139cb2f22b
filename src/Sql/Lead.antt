-- ===== src/Sql/Lead.antt =====
-- The free statements of the console: `strip_sql_lead`, `is_json_query`, `query` up to the connection, and
-- `env_value`. `skip_lead` is the loop that drops comments, on fuel; Sql/Lead/Ends shows that a text's own
-- length is enough.
pub mod Ends
use cangling_update.Base.{
  ℕ, zero, suc, Bool, true, false, not, ◌&&◌, ◌||◌, List, [], ◌∷◌, ◌++◌, Option, none, some, ltb,
  ◌*◌, ◌==◌, if◌then◌else◌, is_empty, any, length,
}
use cangling_update.Text.{
  Text, text, text_eq, one_of, len, trim, trim_end, trim_end_matches, split_once, split_whitespace,
  starts_with, strip_prefix, to_ascii_uppercase, has, decimal, lines,
}
use cangling_update.Errors.{bad_request, Result, ok, err, ◌>>◌, ◌>>=◌, refuse_if}
use cangling_update.Sql.Quote.{quote_ident, max_limit}

-- Cut here, or one character later than the rest is.
abbrev pub cut : Option Text → ℕ → Option (Text × Text) → Option (Text × Text)
cut (some after) c later = some ([], after)
cut none c none = none
cut none c (some (a, b)) = some (c ∷ a, b)

-- `split_once` at a text.
abbrev pub split_once_at : Text → Text → Option (Text × Text)
split_once_at p [] = if is_empty p then some ([], []) else none
split_once_at p (c ∷ cs) = cut (strip_prefix p (c ∷ cs)) c (split_once_at p cs)

abbrev pub trimmed_rest : Option (Text × Text) → Text
trimmed_rest none = []
trimmed_rest (some (before, rest)) = trim rest

unfoldable pub after_line : Text → Text
after_line s = trimmed_rest (split_once b'\n' s)

unfoldable pub after_block : Text → Text
after_block s = trimmed_rest (split_once_at (text "*/") s)

unfoldable pub skip_lead : ℕ → Text → Text
skip_lead zero s = s
skip_lead (suc fuel) s =
    let line = skip_lead fuel (after_line s) in
    let block = skip_lead fuel (after_block s) in
    if starts_with (text "--") s then line else if starts_with (text "/*") s then block else s

abbrev pub first_word : List Text → Text
first_word [] = []
first_word (w ∷ ws) = w

abbrev pub is_semicolon : ℕ → Bool
is_semicolon c = c == b';'

unfoldable pub strip_sql_lead : Text → Text
unfolding skip_lead
strip_sql_lead sql = to_ascii_uppercase (
    trim_end_matches is_semicolon
      (first_word (split_whitespace (skip_lead (length sql) (trim sql)))))

unfoldable pub is_json_query : Text → Bool
unfolding strip_sql_lead
is_json_query sql = one_of (strip_sql_lead sql) ("SELECT" ∷ "WITH" ∷ "TABLE" ∷ "VALUES" ∷ [])

unfoldable pub strip_trailing_semicolons : Text → Text
strip_trailing_semicolons sql = trim_end (trim_end_matches is_semicolon (trim_end sql))

unfoldable pub has_internal_semicolon : Text → Bool
unfolding strip_trailing_semicolons
has_internal_semicolon sql = any is_semicolon (strip_trailing_semicolons sql)

abbrev pub max_sql_bytes : ℕ
max_sql_bytes = 64 * 1024

-- A statement goes to psql wrapped for JSON, or as it was given.
pub data Sent : Type 0 where
  wrapped as_given : Text → Sent

unfoldable pub wrap : Text → Text
wrap trimmed =
    text "SELECT coalesce(json_agg(row_to_json(q)), '[]'::json) FROM (SELECT * FROM ("
    ++ (trimmed ++ (text ") s LIMIT " ++ (decimal max_limit ++ text ") q")))

abbrev pub sent : Text → Sent
sent sql =
    if is_json_query sql && not (has_internal_semicolon sql)
    then wrapped (wrap (strip_trailing_semicolons sql))
    else as_given sql

-- What `query` sends; `size` is the length of the text in bytes.
unfoldable pub query_sql : Text → Text → ℕ → Result Sent
query_sql database sql size = do
  checked ← quote_ident database
  refuse_if (ltb max_sql_bytes size) (bad_request (text "SQL 不能超过 64 KB"))
  refuse_if (is_empty (trim sql)) (bad_request (text "SQL 不能为空"))
  ok (sent sql)

abbrev pub after_equals : Option Text → Option Text
after_equals none = none
after_equals (some rest) = strip_prefix (b'=' ∷ []) rest

abbrev pub some_value : Option Text → Option Text
some_value none = none
some_value (some v) = if is_empty v then none else some v

abbrev pub setting_of : Text → Text → Option Text
setting_of key line = some_value (after_equals (strip_prefix key line))

-- The first line that sets the key to something.
unfoldable pub first_setting : Text → List Text → Option Text
first_setting key [] = none
first_setting key (line ∷ rest) =
    let later = first_setting key rest in
    elim (setting_of key line) [ some v ↦ some v | none ↦ later ]

unfoldable pub env_value : Text → Text → Option Text
unfolding first_setting
env_value raw key = first_setting key (lines raw)
