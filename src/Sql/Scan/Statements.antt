-- ===== src/Sql/Scan/Statements.antt =====
-- The deletions and updates of rows that the console builds are single statements, whatever names and
-- values they are given.
use cangling_update.Base.{
  true, false, List, [], ◌∷◌, ◌++◌, none, ltb, is_empty, length, ◌≡◌, refl, arith, ◌∙◌, ap, all,
  Bool-cases, inl, inr, All, subst, sym, lookup, ◌||◌,
}
use mathlib.Core.List.{append-nil}
use cangling_update.Text.{Text, text, join, text_is_eq}
use cangling_update.Errors.{ok, refuse_if, >>=-eq-ok, ok-subst}
use cangling_update.Sql.Quote.{
  Json, null, bool, number, string, other, quote_ident, is_safe_sql_name, sql_literal, sql_value,
  sql_eq,
}
use cangling_update.Sql.Rows.{
  Row, wheres, row_where, qualified, targets, delete_rows_sql, assignments, update_row_sql,
  unchanged,
}
use cangling_update.Sql.Scan.{single}
use cangling_update.Sql.Scan.Literals.{
  Neutral, Neutral-append, Neutral-quoted, Neutral-plain, is_plain,
}

-- What serde prints for a number: no quote and no `;`.
abbrev pub PlainValue : Json → Type 0
PlainValue (number printed) = all is_plain printed ≡ true
PlainValue v = Unit {0}

abbrev pub PlainRow : Row → Type 0
PlainRow = All (λ e. PlainValue e.1)

pub Neutral-sql_literal : (s : Text) → Neutral (sql_literal s)
unfolding sql_literal
Neutral-sql_literal s = Neutral-quoted b'\'' s refl

pub Neutral-quote_ident : (name : Text) {ident : Text} → quote_ident name ≡ ok ident → Neutral ident
unfolding quote_ident
Neutral-quote_ident name {ident} h = elim (Bool-cases (is_safe_sql_name name)) [
  | inl e ↦ subst Neutral (ground arith) (Neutral-quoted b'"' name refl)
  | inr e ↦ absurd (ground arith)
]

Neutral-sql_value : (v : Json) → PlainValue v → Neutral (sql_value v)
unfolding sql_value
Neutral-sql_value null p = Neutral-plain (text "NULL") (unfold text in refl)
Neutral-sql_value (bool true) p = Neutral-plain (text "TRUE") (unfold text in refl)
Neutral-sql_value (bool false) p = Neutral-plain (text "FALSE") (unfold text in refl)
Neutral-sql_value (number printed) p = Neutral-plain printed p
Neutral-sql_value (string s) p = Neutral-sql_literal s
Neutral-sql_value (other printed) p =
    Neutral-append (sql_literal printed) (text "::jsonb") (Neutral-sql_literal printed)
      (Neutral-plain (text "::jsonb") (unfold text in refl))

Neutral-sql_eq : (ident : Text) (v : Json) → Neutral ident → PlainValue v → Neutral (sql_eq ident v)
unfolding sql_eq
Neutral-sql_eq ident null n p =
    Neutral-append ident _ n (Neutral-plain (text " IS NULL") (unfold text in refl))
Neutral-sql_eq ident v n p = Neutral-append ident _ n (
    Neutral-append _ (sql_value v)
      (Neutral-plain (text " IS NOT DISTINCT FROM ") (unfold text in refl)) (Neutral-sql_value v p))

Neutral-join :
    (sep : Text) (parts : List Text) → Neutral sep → All Neutral parts → Neutral (join sep parts)
Neutral-join sep [] n a = λ rest. refl
Neutral-join sep (x ∷ []) n a = a.0
Neutral-join sep (x ∷ y ∷ parts) n a =
    Neutral-append x _ a.0 (Neutral-append sep _ n (Neutral-join sep (y ∷ parts) n a.1))

wheres-Neutral :
    (keys : Row) {parts : List Text} → PlainRow keys → wheres keys ≡ ok parts → All Neutral parts
unfolding wheres
wheres-Neutral [] p h = ok-subst (All Neutral) h tt
wheres-Neutral ((col, val) ∷ keys) p h =
    let (ident, named, more) = >>=-eq-ok (quote_ident col) _ h in
    let (rest, done, last) = >>=-eq-ok (wheres keys) _ more in
    ok-subst (All Neutral) last
      (Neutral-sql_eq ident val (Neutral-quote_ident col named) p.0, wheres-Neutral keys p.1 done)

row_where-Neutral :
    (keys : Row) {clause : Text} → PlainRow keys → row_where keys ≡ ok clause → Neutral clause
unfolding row_where
row_where-Neutral keys p h =
    let (u, some_key, h1) = >>=-eq-ok (refuse_if (is_empty keys) _) _ h in
    let (v, few, h2) = >>=-eq-ok (refuse_if (ltb 64 (length keys)) _) _ h1 in
    let (parts, built, last) = >>=-eq-ok (wheres keys) _ h2 in
    ok-subst Neutral last (
      Neutral-join (text " AND ") parts (Neutral-plain _ (unfold text in refl))
        (wheres-Neutral keys p built))

pub qualified-Neutral :
    (schema table : Text) {fq : Text} → qualified schema table ≡ ok fq → Neutral fq
unfolding qualified
qualified-Neutral schema table h =
    let (s, sn, h1) = >>=-eq-ok (quote_ident schema) _ h in
    let (t, tn, last) = >>=-eq-ok (quote_ident table) _ h1 in
    ok-subst Neutral last (
      Neutral-append s _ (Neutral-quote_ident schema sn) (
        Neutral-append (text ".") t (Neutral-plain _ (unfold text in refl))
          (Neutral-quote_ident table tn)))

-- A template around neutral texts.
pub around :
    (a b c : Text) → all is_plain a ≡ true → Neutral b → Neutral c → Neutral (a ++ (b ++ c))
around a b c pa nb nc = Neutral-append a _ (Neutral-plain a pa) (Neutral-append b c nb nc)

targets-Neutral :
    (fq : Text) (rows : List Row) {parts : List Text}
    → Neutral fq
    → All PlainRow rows
    → targets fq rows ≡ ok parts
    → All Neutral parts
unfolding targets
targets-Neutral fq [] n p h = ok-subst (All Neutral) h tt
targets-Neutral fq (keys ∷ rows) n p h =
    let (clause, built, more) = >>=-eq-ok (row_where keys) _ h in
    let (rest, done, last) = >>=-eq-ok (targets fq rows) _ more in
    ok-subst (All Neutral) last (
      around _ fq _ (unfold text in refl) n (
          around _ clause _ (unfold text in refl) (row_where-Neutral keys p.0 built)
            (Neutral-plain _ (unfold text in refl))),
      targets-Neutral fq rows n p.1 done,
    )

pub Neutral-single : (t : Text) → Neutral t → single none t ≡ true
unfolding single
Neutral-single t n = ap (single none) (sym (append-nil t)) ∙ n []

-- A deletion that is accepted is a single statement with all its quotes closed, whatever schema, table,
-- columns and values it was given; the numbers hold no quote and no semicolon.
pub delete_rows_sql-single :
    (schema table : Text) (rows : List Row) {sql : Text}
    → All PlainRow rows
    → delete_rows_sql schema table rows ≡ ok sql
    → single none sql ≡ true
unfolding delete_rows_sql
delete_rows_sql-single schema table rows {sql} p h =
    let (u, some_row, h1) = >>=-eq-ok (refuse_if (is_empty rows) _) _ h in
    let (v, few, h2) = >>=-eq-ok (refuse_if (ltb 500 (length rows)) _) _ h1 in
    let (fq, named, h3) = >>=-eq-ok (qualified schema table) _ h2 in
    let (parts, built, last) = >>=-eq-ok (targets fq rows) _ h3 in
    let n = qualified-Neutral schema table named in
    Neutral-single sql (
      ok-subst Neutral last (
        around (text "WITH wanted AS (") _ _ (unfold text in refl)
          (Neutral-join (text " UNION ALL ") parts (Neutral-plain _ (unfold text in refl))
            (targets-Neutral fq rows n p built))
          (around (text "), d AS (DELETE FROM ") fq _ (unfold text in refl) n (
            Neutral-plain
              (text
                " AS target USING wanted WHERE target.ctid = wanted.ctid RETURNING 1) SELECT count(*)::bigint FROM d")
              (unfold text in refl)))))

assignments-Neutral :
    (keys values : Row) {sets : List Text}
    → PlainRow values
    → assignments keys values ≡ ok sets
    → All Neutral sets
unfolding assignments
assignments-Neutral keys [] p h = ok-subst (All Neutral) h tt
assignments-Neutral keys ((col, val) ∷ values) p h =
    let (ident, named, more) = >>=-eq-ok (quote_ident col) _ h in
    let (rest, done, last) = >>=-eq-ok (assignments keys values) _ more in
    let n = assignments-Neutral keys values p.1 done in
    elim (Bool-cases (unchanged (lookup col keys) val)) [
      | inl same ↦ ok-subst (All Neutral) (rw same at last) n
      | inr new ↦ ok-subst (All Neutral) (rw new at last) (
        Neutral-append ident _ (Neutral-quote_ident col named) (
            Neutral-append (text " = ") _ (Neutral-plain _ (unfold text in refl))
              (Neutral-sql_value val p.0)),
        n,
      )
    ]

-- An update that is accepted is a single statement with all its quotes closed, whatever schema, table,
-- columns and values it was given; the numbers hold no quote and no semicolon.
pub update_row_sql-single :
    (database schema table : Text) (keys values : Row) {sql : Text}
    → PlainRow keys
    → PlainRow values
    → update_row_sql database schema table keys values ≡ ok sql
    → single none sql ≡ true
unfolding update_row_sql
update_row_sql-single database schema table keys values {sql} pk pv h =
    let (fq, named, h1) = >>=-eq-ok (qualified schema table) _ h in
    let (checked, valid, h2) = >>=-eq-ok (quote_ident database) _ h1 in
    let (u, given, h3) = >>=-eq-ok (refuse_if (is_empty values || is_empty keys) _) _ h2 in
    let (v, few, h4) =
      >>=-eq-ok (refuse_if (ltb 64 (length values) || ltb 64 (length keys)) _) _ h3 in
    let (sets, assigned, h5) = >>=-eq-ok (assignments keys values) _ h4 in
    let (w, changed, h6) = >>=-eq-ok (refuse_if (is_empty sets) _) _ h5 in
    let (clause, built, last) = >>=-eq-ok (row_where keys) _ h6 in
    Neutral-single sql (
      ok-subst Neutral last (
        around (text "WITH u AS (UPDATE ") fq _ (unfold text in refl)
          (qualified-Neutral schema table named)
          (around (text " SET ") _ _ (unfold text in refl)
            (Neutral-join (text ", ") sets (Neutral-plain _ (unfold text in refl))
              (assignments-Neutral keys values pv assigned))
            (around (text " WHERE ") clause _ (unfold text in refl)
              (row_where-Neutral keys pk built)
              (Neutral-plain (text " RETURNING 1) SELECT count(*)::bigint FROM u")
                (unfold text in refl))))))
