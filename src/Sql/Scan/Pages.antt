-- ===== src/Sql/Scan/Pages.antt =====
-- The two statements with which `rows` of src/dbadmin.rs counts and reads a page are single statements.
use mathlib.Core.Option.{Option, none, some}
use cangling_update.Base.{
  ℕ, zero, suc, ◌+◌, ◌%◌, ◌/◌, ◌<◌, true, [], ◌∷◌, ◌++◌, ltb, is_empty, ◌≡◌, refl, arith, all,
  Bool-cases, inl, inr,
}
use cangling_update.Text.{Text, text, text_eq, trim, decimal, digits_of}
use cangling_update.Errors.{ok, >>=-eq-ok, ok-subst}
use cangling_update.Sql.Quote.{RowFilter, quote_ident, sql_literal, filter_with, row_filter_clause}
use cangling_update.Sql.Rows.{where_clause, qualified, rows_sql}
use cangling_update.Sql.Scan.{single}
use cangling_update.Sql.Scan.Literals.{Neutral, Neutral-append, Neutral-plain, is_plain}
use cangling_update.Sql.Scan.Statements.{
  Neutral-sql_literal, Neutral-quote_ident, qualified-Neutral, around, Neutral-single,
}

digit-plain : (d : ℕ) → d < 10 → is_plain (b'0' + d) ≡ true
digit-plain d h = ground arith

digits_of-plain :
    (fuel n : ℕ) (rest : Text)
    → all is_plain rest ≡ true
    → all is_plain (digits_of fuel n rest) ≡ true
unfolding digits_of
digits_of-plain zero n rest h = h
digits_of-plain (suc fuel) n rest h = elim (Bool-cases (ltb n 10)) [
  | inl e ↦ let low : n < 10 = ground arith in rw e (rw (digit-plain n low) h)
  | inr e ↦
      let low : n % 10 < 10 = omega arith in
      rw e
        (digits_of-plain fuel (n / 10) ((b'0' + n % 10) ∷ rest) (rw (digit-plain (n % 10) low) h))
]

decimal-Neutral : (n : ℕ) → Neutral (decimal n)
unfolding decimal
decimal-Neutral n = Neutral-plain (decimal n) (digits_of-plain (suc n) n [] refl)

-- A plain text before and after a neutral one.
enclosed :
    (a b c : Text)
    → all is_plain a ≡ true
    → Neutral b
    → all is_plain c ≡ true
    → Neutral (a ++ (b ++ c))
enclosed a b c p n q = around a b c p n (Neutral-plain c q)

-- `left` and `right` take a column, the length of the value, and the value.
sided :
    (name low lit low_val : Text)
    → all is_plain name ≡ true
    → Neutral low
    → Neutral lit
    → Neutral low_val
    → Neutral (name ++ (low ++ (text ", char_length(" ++ (lit ++ (text ")) = " ++ low_val)))))
sided name low lit low_val p nl n nv = around name low _ p nl (
    around (text ", char_length(") lit _ (unfold text in refl) n (
      Neutral-append (text ")) = ") low_val (Neutral-plain (text ")) = ") (unfold text in refl))
        nv))

filter_with-Neutral :
    (ident lit op : Text) → Neutral ident → Neutral lit → Neutral (filter_with ident lit op)
unfolding filter_with
filter_with-Neutral ident lit op ni n =
    let low =
      enclosed (text "lower(") ident (text "::text)") (unfold text in refl) ni
        (unfold text in refl) in
    let low_val =
      enclosed (text "lower(") lit (text ")") (unfold text in refl) n (unfold text in refl) in
    elim (Bool-cases (text_eq op (text "eq"))) [
      | inl e ↦ rw e (
          Neutral-append _ _ low
            (Neutral-append (text " = ") _ (Neutral-plain _ (unfold text in refl)) low_val))
      | inr e ↦ elim (Bool-cases (text_eq op (text "neq"))) [
        | inl k ↦
            rw (e, k)
              (Neutral-append _ _ low
                (Neutral-append (text " <> ") _ (Neutral-plain _ (unfold text in refl)) low_val))
        | inr k ↦ elim (Bool-cases (text_eq op (text "prefix"))) [
          | inl m ↦ rw (e, k, m) (sided (text "left(") _ lit _ (unfold text in refl) low n low_val)
          | inr m ↦ elim (Bool-cases (text_eq op (text "suffix"))) [
            | inl s ↦
                rw (e, k, m, s) (sided (text "right(") _ lit _ (unfold text in refl) low n low_val)
            | inr s ↦
                rw (e, k, m, s)
                  (around (text "strpos(") _ _ (unfold text in refl) low (
                    enclosed (text ", ") _ (text ") > 0") (unfold text in refl) low_val
                      (unfold text in refl)))
          ]
        ]
      ]
    ]

row_filter_clause-Neutral :
    (f : RowFilter) {clause : Text} → row_filter_clause f ≡ ok clause → Neutral clause
unfolding row_filter_clause
row_filter_clause-Neutral f h =
    let (ident, named, last) = >>=-eq-ok (quote_ident f.column) _ h in
    elim (Bool-cases (is_empty (trim f.value))) [
      | inl e ↦ ok-subst Neutral (rw e at last) (λ rest. refl)
      | inr e ↦ ok-subst Neutral (rw e at last) (
          filter_with-Neutral ident (sql_literal (trim f.value)) f.op
            (Neutral-quote_ident f.column named) (Neutral-sql_literal (trim f.value)))
    ]

where_clause-Neutral :
    (f : Option RowFilter) {clause : Text} → where_clause f ≡ ok clause → Neutral clause
where_clause-Neutral none h = ok-subst Neutral h (λ rest. refl)
where_clause-Neutral (some f) h =
    let (clause, built, last) = >>=-eq-ok (row_filter_clause f) _ h in
    let n = row_filter_clause-Neutral f built in
    elim (Bool-cases (is_empty clause)) [
      | inl e ↦ ok-subst Neutral (rw e at last) (λ rest. refl)
      | inr e ↦
          ok-subst Neutral (rw e at last)
            (Neutral-append (text " WHERE ") clause (Neutral-plain _ (unfold text in refl)) n)
    ]

abbrev page_head : Text
page_head = text "SELECT coalesce(json_agg(row_to_json(q)), '[]'::json) FROM (SELECT * FROM "

page_head-Neutral : Neutral page_head
unfolding single text
page_head-Neutral rest = refl

-- The statements that count and read a page of a table are single statements with all their quotes closed,
-- whatever schema, table, column, operator and value they were given.
pub rows_sql-single :
    (database schema name : Text) (offset limit : ℕ) (filter : Option RowFilter) {count page : Text}
    → rows_sql database schema name offset limit filter ≡ ok (count, page)
    → (single none count ≡ true) × (single none page ≡ true)
unfolding rows_sql
rows_sql-single database schema name offset limit filter {count} {page} h =
    let (fq, named, h1) = >>=-eq-ok (qualified schema name) _ h in
    let (checked, valid, h2) = >>=-eq-ok (quote_ident database) _ h1 in
    let (clause, built, last) = >>=-eq-ok (where_clause filter) _ h2 in
    let n = qualified-Neutral schema name named in
    let w = where_clause-Neutral filter built in
    (
      Neutral-single count
          (ok-subst (λ r. Neutral r.0) last (around _ fq clause (unfold text in refl) n w)),
      Neutral-single page (
          ok-subst (λ r. Neutral r.1) last
            (Neutral-append page_head _ page_head-Neutral (
              Neutral-append fq _ n (
                Neutral-append clause _ w (
                  around (text " LIMIT ") _ _ (unfold text in refl) (decimal-Neutral _) (
                    enclosed (text " OFFSET ") _ (text ") q") (unfold text in refl)
                      (decimal-Neutral offset) (unfold text in refl))))))),
    )
