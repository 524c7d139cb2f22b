-- ===== src/Tests/Statements.antt =====
-- Statements of the database console, with names and values that try to break out of their quotes.
use cangling_update.Base.{true, [], ◌∷◌, ◌++◌, none, some, ◌≡◌, refl, lookup}
use cangling_update.Text.{Text, text, len, is_ascii_alphanumeric}
use cangling_update.Sql.Quote.{
  RowFilter, row_filter_clause, filter_with, clamp_limit, number, string, doubled, quoted,
  quote_ident, is_safe_sql_name, sql_literal, sql_value, sql_eq,
}
use cangling_update.Errors.{ok}
use cangling_update.Sql.Rows.{
  Row, wheres, row_where, qualified, targets, delete_rows_sql, assignments, update_row_sql,
  rows_sql,
}
use cangling_update.Sql.Lead.{
  skip_lead, strip_trailing_semicolons, wrap, is_json_query, strip_sql_lead, has_internal_semicolon,
  wrapped, as_given, query_sql,
}
use cangling_update.Sql.Lead.Ends.{is_comment, skip_lead_enough}
use cangling_update.Base.{ℕ, length, ◌≤◌, false}
use cangling_update.Text.{
  trim, decimal, digits_of, split_by, split_whitespace, trim_matches, trim_end_matches,
  is_whitespace, to_upper,
}
use cangling_update.Sql.Scan.{single, read_quoted}
use cangling_update.Sql.Scan.Literals.{literal_read_back}
use cangling_update.Sql.Scan.Pages.{rows_sql-single}
use cangling_update.Sql.Scan.Statements.{delete_rows_sql-single, update_row_sql-single}

literal_read_back_example :
    read_quoted b'\'' (sql_literal (text "x'; DROP TABLE t; --") ++ text " LIMIT 1")
    ≡ some (text "x'; DROP TABLE t; --", text " LIMIT 1")
literal_read_back_example =
    literal_read_back (text "x'; DROP TABLE t; --") (text " LIMIT 1") (unfold text in refl)

abbrev keys : Row
keys = (text "id", number (text "7")) ∷ (text "name", string (text "O';")) ∷ []

abbrev values : Row
values = (text "id", number (text "7")) ∷ (text "name", string (text "a'b;")) ∷ []

abbrev deletion : Text
deletion =
    text
      "WITH wanted AS ((SELECT ctid FROM \"public\".\"t\" WHERE \"id\" IS NOT DISTINCT FROM 7 AND \"name\" IS NOT DISTINCT FROM 'O'';' LIMIT 1)), d AS (DELETE FROM \"public\".\"t\" AS target USING wanted WHERE target.ctid = wanted.ctid RETURNING 1) SELECT count(*)::bigint FROM d"

delete_rows_sql-single_example : single none deletion ≡ true
delete_rows_sql-single_example =
    delete_rows_sql-single (text "public") (text "t") (keys ∷ [])
      ((unfold text in refl, (tt, tt)), tt)
      (unfold delete_rows_sql qualified targets row_where wheres sql_eq sql_value sql_literal
          quote_ident is_safe_sql_name quoted doubled len is_ascii_alphanumeric text in
        refl)

abbrev update : Text
update =
    text
      "WITH u AS (UPDATE \"public\".\"t\" SET \"name\" = 'a''b;' WHERE \"id\" IS NOT DISTINCT FROM 7 AND \"name\" IS NOT DISTINCT FROM 'O'';' RETURNING 1) SELECT count(*)::bigint FROM u"

update_row_sql-single_example : single none update ≡ true
update_row_sql-single_example =
    update_row_sql-single (text "postgres") (text "public") (text "t") keys values
      (unfold text in refl, (tt, tt)) (unfold text in refl, (tt, tt))
      (unfold update_row_sql qualified assignments row_where wheres sql_eq sql_value sql_literal
          quote_ident is_safe_sql_name quoted doubled len is_ascii_alphanumeric lookup text in
        refl)

abbrev commented : Text
commented = text "/* a */ -- b\n SELECT 1;"

skip_lead_enough_example :
    (is_comment (skip_lead (length commented) (trim commented)) ≡ false)
    × ((rounds : ℕ)
        → length commented ≤ rounds
        → skip_lead rounds (trim commented) ≡ skip_lead (length commented) (trim commented))
skip_lead_enough_example = skip_lead_enough commented

abbrev name_filter : RowFilter
name_filter = record { column = text "name"; op = text "prefix"; value = text " O';" }

abbrev counted : Text
counted =
    text
      "SELECT count(*)::bigint FROM \"public\".\"t\" WHERE left(lower(\"name\"::text), char_length('O'';')) = lower('O'';')"

abbrev paged : Text
paged =
    text
      "SELECT coalesce(json_agg(row_to_json(q)), '[]'::json) FROM (SELECT * FROM \"public\".\"t\" WHERE left(lower(\"name\"::text), char_length('O'';')) = lower('O'';') LIMIT 50 OFFSET 100) q"

rows_sql-single_example : (single none counted ≡ true) × (single none paged ≡ true)
rows_sql-single_example =
    rows_sql-single (text "postgres") (text "public") (text "t") 100 50 (some name_filter) (
      unfold rows_sql qualified row_filter_clause filter_with clamp_limit decimal digits_of
        sql_literal quote_ident is_safe_sql_name quoted doubled len is_ascii_alphanumeric
        trim_matches is_whitespace text in
      refl)

-- A statement that ends in a semicolon is wrapped without it.
wrapped_select :
    query_sql (text "postgres") (text "SELECT 1;") 9 ≡ ok (wrapped (wrap (text "SELECT 1")))
unfolding query_sql quote_ident is_safe_sql_name quoted doubled len is_ascii_alphanumeric
    is_json_query strip_sql_lead skip_lead has_internal_semicolon strip_trailing_semicolons wrap
    decimal split_whitespace split_by trim_matches trim_end_matches is_whitespace to_upper text
wrapped_select = refl

-- What changes rows goes as it is.
sent_deletion :
    query_sql (text "postgres") (text "DELETE FROM t") 13 ≡ ok (as_given (text "DELETE FROM t"))
unfolding query_sql quote_ident is_safe_sql_name quoted doubled len is_ascii_alphanumeric
    is_json_query strip_sql_lead skip_lead has_internal_semicolon strip_trailing_semicolons wrap
    decimal split_whitespace split_by trim_matches trim_end_matches is_whitespace to_upper text
sent_deletion = refl
