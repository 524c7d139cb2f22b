-- ===== src/Sql/Scan/Literals.antt =====
-- Quoting and reading back.
use cangling_update.Base.{
  ℕ, Bool, true, false, ◌||◌, not, [], ◌∷◌, ◌++◌, none, some, ◌==◌, ◌≡◌, refl, arith, ◌∙◌, ap,
  subst, sym, all, Bool-cases, inl, inr,
}
use mathlib.Core.List.{append_assoc}
use cangling_update.Text.{Text}
use cangling_update.Errors.{ok}
use cangling_update.Sql.Quote.{
  doubled, quoted, quote_ident, sql_literal, is_safe_sql_name, is_name_char,
}
use cangling_update.Sql.Scan.{in_front, inside, read_quoted, is_quote, single}

-- The text begins with the quote.
abbrev pub continues : ℕ → Text → Bool
continues q [] = false
continues q (c ∷ cs) = c == q

inside-other : (q c : ℕ) (t : Text) → (c == q) ≡ false → inside q (c ∷ t) ≡ in_front c (inside q t)
unfolding inside
inside-other q c [] h = rw h
inside-other q c (d ∷ t) h = rw h

inside-pair :
    (q c : ℕ) (t : Text) → (c == q) ≡ true → inside q (c ∷ c ∷ t) ≡ in_front c (inside q t)
unfolding inside
inside-pair q c t h = rw h

inside_end :
    (q : ℕ) (rest : Text) → continues q rest ≡ false → inside q (q ∷ rest) ≡ some ([], rest)
unfolding inside
inside_end q [] h = ground arith
inside_end q (d ∷ rest) h = ground arith

inside-doubled :
    (q : ℕ) (s rest : Text)
    → continues q rest ≡ false
    → inside q (doubled q s ++ q ∷ rest) ≡ some (s, rest)
unfolding doubled
inside-doubled q [] rest h = inside_end q rest h
inside-doubled q (c ∷ s) rest h = elim (Bool-cases (c == q)) [
  | inl e ↦ rw e (inside-pair q c _ e ∙ ap (in_front c) (inside-doubled q s rest h))
  | inr e ↦ rw e (inside-other q c _ e ∙ ap (in_front c) (inside-doubled q s rest h))
]

read_quoted-quoted :
    (q : ℕ) (s rest : Text)
    → continues q rest ≡ false
    → read_quoted q (quoted q s ++ rest) ≡ some (s, rest)
unfolding read_quoted quoted
read_quoted-quoted q s rest h =
    ground (arith, append_assoc (doubled q s) (q ∷ []) rest, inside-doubled q s rest h)

-- The database reads back from a literal exactly the text that was quoted, and from a quoted name the
-- name, whatever follows, unless that begins with the same quote.
pub literal_read_back :
    (s rest : Text)
    → continues b'\'' rest ≡ false
    → read_quoted b'\'' (sql_literal s ++ rest) ≡ some (s, rest)
unfolding sql_literal
literal_read_back s rest h = read_quoted-quoted b'\'' s rest h

is_safe_sql_name-all : (name : Text) → is_safe_sql_name name ≡ true → all is_name_char name ≡ true
unfolding is_safe_sql_name
is_safe_sql_name-all name h = ground arith

-- A name that is accepted is read back from its quotes; it has letters, digits, `_` and `-` only.
pub ident_read_back :
    (name ident rest : Text)
    → quote_ident name ≡ ok ident
    → continues b'"' rest ≡ false
    → (read_quoted b'"' (ident ++ rest) ≡ some (name, rest)) × (all is_name_char name ≡ true)
unfolding quote_ident
ident_read_back name ident rest h k = elim (Bool-cases (is_safe_sql_name name)) [
  | inl e ↦ (ground (arith, read_quoted-quoted b'"' name rest k), is_safe_sql_name-all name e)
  | inr e ↦ absurd (ground arith)
]

==_refl : (q : ℕ) → (q == q) ≡ true
==_refl q = ground arith

-- Text that the scan passes over, whatever follows.
abbrev pub Neutral : Text → Type 0
Neutral t = (rest : Text) → single none (t ++ rest) ≡ single none rest

pub Neutral-append : (a b : Text) → Neutral a → Neutral b → Neutral (a ++ b)
Neutral-append a b na nb rest = ap (single none) (append_assoc a b rest) ∙ na (b ++ rest) ∙ nb rest

single_open : (q : ℕ) (t : Text) → is_quote q ≡ true → single none (q ∷ t) ≡ single (some q) t
unfolding single
single_open q t h = rw h

single-pair :
    (q c : ℕ) (t : Text)
    → is_quote q ≡ true
    → (c == q) ≡ true
    → single (some q) (c ∷ c ∷ t) ≡ single (some q) t
unfolding single
single-pair q c t h e =
    let same : c ≡ q = ground arith in
    rw (e, single)
      (single_open c t (subst (λ k. is_quote k ≡ true) (sym same) h)
        ∙ ap (λ k. single (some k) t) same)

single-other : (q c : ℕ) (t : Text) → (c == q) ≡ false → single (some q) (c ∷ t) ≡ single (some q) t
unfolding single
single-other q c t e = rw (e, single)

single-doubled :
    (q : ℕ) (s rest : Text)
    → is_quote q ≡ true
    → single (some q) (doubled q s ++ rest) ≡ single (some q) rest
unfolding doubled
single-doubled q [] rest h = refl
single-doubled q (c ∷ s) rest h = elim (Bool-cases (c == q)) [
  | inl e ↦ rw e (single-pair q c _ h e ∙ single-doubled q s rest h)
  | inr e ↦ rw e (single-other q c _ e ∙ single-doubled q s rest h)
]

single_close : (q : ℕ) (t : Text) → single (some q) (q ∷ t) ≡ single none t
unfolding single
single_close q t = rw (==_refl q, single)

pub Neutral-quoted : (q : ℕ) (s : Text) → is_quote q ≡ true → Neutral (quoted q s)
unfolding quoted
Neutral-quoted q s h rest =
    single_open q _ h
    ∙ ap (single (some q)) (append_assoc (doubled q s) (q ∷ []) rest)
    ∙ single-doubled q s (q ∷ rest) h
    ∙ single_close q rest

abbrev pub is_plain : ℕ → Bool
is_plain c = not (is_quote c || c == b';')

single-plain : (c : ℕ) (t : Text) → is_plain c ≡ true → single none (c ∷ t) ≡ single none t
unfolding single
single-plain c t h = ground arith

pub Neutral-plain : (t : Text) → all is_plain t ≡ true → Neutral t
Neutral-plain [] h rest = refl
Neutral-plain (c ∷ t) h rest =
    single-plain c (t ++ rest) (ground arith) ∙ Neutral-plain t (ground arith) rest
