-- ===== src/Sql/Rows.antt =====
-- The statements on single rows: `row_where`, `delete_rows_sql`, and what `update_row` and `rows` build
-- before they call `psql`. A serde map is the list of its entries in key order.
use cangling_update.Base.{
  ℕ, Bool, true, false, ◌||◌, List, [], ◌∷◌, ◌++◌, Option, none, some, ltb, if◌then◌else◌, is_empty,
  length, lookup,
}
use cangling_update.Text.{Text, text, text_eq, text_is_eq, join, decimal}
use cangling_update.Errors.{bad_request, Result, ok, ◌>>=◌, ◌>>◌, refuse_if}
use cangling_update.Sql.Quote.{
  Json, null, bool, number, string, other, RowFilter, quote_ident, sql_eq, sql_value,
  row_filter_clause, clamp_limit,
}

abbrev pub Row : Type 0
Row = List (Text × Json)

unfoldable pub wheres : Row → Result (List Text)
wheres [] = ok []
wheres ((col, val) ∷ keys) = do
  ident ← quote_ident col
  rest ← wheres keys
  ok (sql_eq ident val ∷ rest)

unfoldable pub row_where : Row → Result Text
row_where keys = do
  refuse_if (is_empty keys) (bad_request (text "缺少要定位的行"))
  refuse_if (ltb 64 (length keys)) (bad_request (text "列数过多"))
  parts ← wheres keys
  ok (join (text " AND ") parts)

unfoldable pub qualified : Text → Text → Result Text
qualified schema table = do s ← quote_ident schema; t ← quote_ident table; ok (s ++ (text "." ++ t))

abbrev pub target : Text → Text → Text
target fq clause =
    text "(SELECT ctid FROM " ++ (fq ++ (text " WHERE " ++ (clause ++ text " LIMIT 1)")))

unfoldable pub targets : Text → List Row → Result (List Text)
targets fq [] = ok []
targets fq (keys ∷ rows) = do
  clause ← row_where keys
  rest ← targets fq rows
  ok (target fq clause ∷ rest)

abbrev pub delete_statement : Text → List Text → Text
delete_statement fq parts =
    text "WITH wanted AS ("
    ++ (join (text " UNION ALL ") parts
        ++ (text "), d AS (DELETE FROM "
            ++ (fq
                ++ text
                    " AS target USING wanted WHERE target.ctid = wanted.ctid RETURNING 1) SELECT count(*)::bigint FROM d")))

unfoldable pub delete_rows_sql : Text → Text → List Row → Result Text
delete_rows_sql schema table rows = do
  refuse_if (is_empty rows) (bad_request (text "缺少要删除的行"))
  refuse_if (ltb 500 (length rows)) (bad_request (text "一次最多删除 500 行"))
  fq ← qualified schema table
  parts ← targets fq rows
  ok (delete_statement fq parts)

abbrev pub json_eq : Json → Json → Bool
json_eq null null = true
json_eq (bool true) (bool true) = true
json_eq (bool false) (bool false) = true
json_eq (number a) (number b) = text_eq a b
json_eq (string a) (string b) = text_eq a b
json_eq (other a) (other b) = text_eq a b
json_eq _ _ = false

abbrev pub unchanged : Option Json → Json → Bool
unchanged none v = false
unchanged (some w) v = json_eq w v

-- The columns of `values` that differ from the row that was read.
unfoldable pub assignments : Row → Row → Result (List Text)
assignments keys [] = ok []
assignments keys ((col, val) ∷ values) = do
  ident ← quote_ident col
  rest ← assignments keys values
  ok (
      if unchanged (lookup col keys) val
      then rest
      else (ident ++ (text " = " ++ sql_value val)) ∷ rest)

abbrev pub update_statement : Text → List Text → Text → Text
update_statement fq sets clause =
    text "WITH u AS (UPDATE "
    ++ (fq
        ++ (text " SET "
            ++ (join (text ", ") sets
                ++ (text " WHERE "
                    ++ (clause ++ text " RETURNING 1) SELECT count(*)::bigint FROM u")))))

-- `update_row` up to the connection.
unfoldable pub update_row_sql : Text → Text → Text → Row → Row → Result Text
update_row_sql database schema table keys values = do
  fq ← qualified schema table
  checked ← quote_ident database
  refuse_if (is_empty values || is_empty keys) (bad_request (text "缺少要更新的行"))
  refuse_if (ltb 64 (length values) || ltb 64 (length keys)) (bad_request (text "列数过多"))
  sets ← assignments keys values
  refuse_if (is_empty sets) (bad_request (text "没有修改"))
  clause ← row_where keys
  ok (update_statement fq sets clause)

abbrev pub where_clause : Option RowFilter → Result Text
where_clause none = ok []
where_clause (some f) = do
  clause ← row_filter_clause f
  ok (if is_empty clause then [] else text " WHERE " ++ clause)

-- The two statements with which `rows` counts and reads a page.
unfoldable pub rows_sql : Text → Text → Text → ℕ → ℕ → Option RowFilter → Result (Text × Text)
rows_sql database schema name offset limit filter = do
  fq ← qualified schema name
  checked ← quote_ident database
  clause ← where_clause filter
  ok (
    text "SELECT count(*)::bigint FROM " ++ (fq ++ clause),
    text "SELECT coalesce(json_agg(row_to_json(q)), '[]'::json) FROM (SELECT * FROM "
        ++ (fq
            ++ (clause
                ++ (text " LIMIT "
                    ++ (decimal (clamp_limit (some limit))
                        ++ (text " OFFSET " ++ (decimal offset ++ text ") q")))))),
  )
