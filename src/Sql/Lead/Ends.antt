-- ===== src/Sql/Lead/Ends.antt =====
-- The loop of `strip_sql_lead` ends.
use cangling_update.Base.{
  ℕ, zero, suc, ◌+◌, ◌≤◌, ◌<◌, Bool, true, false, ◌||◌, [], ◌∷◌, Option, none, some, ◌==◌, is_empty,
  length, ◌≡◌, ◌⊎◌, refl, sym, ap, arith, Bool-cases, Option-cases, inl, inr, length-append,
}
use cangling_update.Text.{
  Text, text, is_whitespace, trim, trim_matches, trim_start_matches, trim_end_matches, split_once,
  starts_with, strip_prefix, strip_prefix-some,
}
use cangling_update.Sql.Lead.{cut, split_once_at, after_line, after_block, skip_lead}

length-trim_start_matches : (p : ℕ → Bool) (s : Text) → length (trim_start_matches p s) ≤ length s
unfolding trim_start_matches
length-trim_start_matches p [] = omega arith
length-trim_start_matches p (c ∷ s) = ground (arith, length-trim_start_matches p s)

length-trim_end_matches : (p : ℕ → Bool) (s : Text) → length (trim_end_matches p s) ≤ length s
unfolding trim_end_matches
length-trim_end_matches p [] = omega arith
length-trim_end_matches p (c ∷ s) = ground (arith, length-trim_end_matches p s)

length-trim : (s : Text) → length (trim s) ≤ length s
unfolding trim_matches
length-trim s = omega (
  arith,
  length-trim_start_matches is_whitespace s,
  length-trim_end_matches is_whitespace (trim_start_matches is_whitespace s),
)

length-split_once :
    (d : ℕ) (s : Text) {a b : Text} → split_once d s ≡ some (a, b) → length b < length s
length-split_once d [] h = absurd (cc h)
length-split_once d (c ∷ s) h = elim (Bool-cases (c == d)) [
  | inl e ↦ ground arith
  | inr e ↦ elim (Option-cases (split_once d s)) [
    | inl missing ↦ absurd (ground arith)
    | inr ((x, y), found) ↦ let shorter = length-split_once d s found in ground arith
  ]
]

length-strip_prefix :
    (p s : Text) {r : Text} → strip_prefix p s ≡ some r → length r + length p ≡ length s
length-strip_prefix p s {r} h =
    let same = strip_prefix-some p s r h in omega (arith, ap (length) same, length-append p r)

some_prefix :
    (c : ℕ) (p s : Text) {r : Text} → strip_prefix (c ∷ p) s ≡ some r → length r < length s
some_prefix c p s h = omega (arith, length-strip_prefix (c ∷ p) s h)

cut-rest :
    (here : Option Text) (c : ℕ) (later : Option (Text × Text)) {a b : Text}
    → cut here c later ≡ some (a, b)
    → (here ≡ some b) ⊎ ((x : Text) × (later ≡ some (x, b)))
cut-rest (some after) c later h = inl (ground arith)
cut-rest none c none h = absurd (cc h)
cut-rest none c (some (x, y)) h = inr (x, ground arith)

length-split_once_at :
    (c : ℕ) (p s : Text) {a b : Text} → split_once_at (c ∷ p) s ≡ some (a, b) → length b < length s
length-split_once_at c p [] h = absurd (cc h)
length-split_once_at c p (d ∷ s) h =
    elim (cut-rest (strip_prefix (c ∷ p) (d ∷ s)) d (split_once_at (c ∷ p) s) h) [
      | inl found ↦ some_prefix c p (d ∷ s) found
      | inr (x, later) ↦ omega (arith, length-split_once_at c p s later)
    ]

not_empty-length : (s : Text) → is_empty s ≡ false → 0 < length s
not_empty-length [] h = absurd (cc h)
not_empty-length (c ∷ s) h = omega arith

length-after_line : (s : Text) → is_empty s ≡ false → length (after_line s) < length s
unfolding after_line
length-after_line s h = elim (Option-cases (split_once b'\n' s)) [
  | inl missing ↦ rw missing (not_empty-length s h)
  | inr ((a, b), found) ↦ rw found (omega (arith, length-split_once b'\n' s found, length-trim b))
]

length-after_block : (s : Text) → is_empty s ≡ false → length (after_block s) < length s
unfolding after_block text
length-after_block s h = elim (Option-cases (split_once_at (text "*/") s)) [
  | inl missing ↦ rw missing (not_empty-length s h)
  | inr ((a, b), found) ↦
      rw found (omega (arith, length-split_once_at b'*' (b'/' ∷ []) s found, length-trim b))
]

-- A comment begins here.
abbrev pub is_comment : Text → Bool
is_comment s = starts_with (text "--") s || starts_with (text "/*") s

not_empty : (c : ℕ) (p s : Text) → starts_with (c ∷ p) s ≡ true → is_empty s ≡ false
not_empty c p [] h = absurd (cc h)
not_empty c p (d ∷ s) h = refl

dash : (s : Text) → starts_with (text "--") s ≡ true → is_empty s ≡ false
unfolding text
dash s h = not_empty b'-' (b'-' ∷ []) s h

slash : (s : Text) → starts_with (text "/*") s ≡ true → is_empty s ≡ false
unfolding text
slash s h = not_empty b'/' (b'*' ∷ []) s h

no_comment : is_comment [] ≡ false
unfolding text
no_comment = refl

length_zero : (s : Text) → length s ≤ 0 → s ≡ []
length_zero [] h = refl
length_zero (c ∷ s) h = absurd (omega (arith, h))

skip_lead-is_comment :
    (fuel : ℕ) (s : Text) → length s ≤ fuel → is_comment (skip_lead fuel s) ≡ false
unfolding skip_lead
skip_lead-is_comment zero s h = rw (length_zero s h) no_comment
skip_lead-is_comment (suc fuel) s h = elim (Bool-cases (starts_with (text "--") s)) [
  | inl line ↦ rw line (
      skip_lead-is_comment fuel (after_line s)
        (omega (arith, h, length-after_line s (dash s line))))
  | inr other ↦ elim (Bool-cases (starts_with (text "/*") s)) [
    | inl block ↦
        rw (other, block)
          (skip_lead-is_comment fuel (after_block s)
            (omega (arith, h, length-after_block s (slash s block))))
    | inr statement ↦ rw (other, statement) (rw (other, statement) refl)
  ]
]

skip_lead_nil : (fuel : ℕ) → skip_lead fuel [] ≡ []
unfolding skip_lead text
skip_lead_nil zero = refl
skip_lead_nil (suc fuel) = refl

skip_lead_any :
    (fuel other : ℕ) (s : Text)
    → length s ≤ fuel
    → length s ≤ other
    → skip_lead fuel s ≡ skip_lead other s
unfolding skip_lead
skip_lead_any zero other s h k = rw (length_zero s h) (sym (skip_lead_nil other))
skip_lead_any (suc fuel) zero s h k = rw (length_zero s k) (skip_lead_nil (suc fuel))
skip_lead_any (suc fuel) (suc other) s h k = elim (Bool-cases (starts_with (text "--") s)) [
  | inl line ↦
      let shorter = length-after_line s (dash s line) in
      rw line (
        skip_lead_any fuel other (after_line s) (omega (arith, h, shorter))
          (omega (arith, k, shorter)))
  | inr new ↦ elim (Bool-cases (starts_with (text "/*") s)) [
    | inl block ↦
        let shorter = length-after_block s (slash s block) in
        rw (new, block)
          (skip_lead_any fuel other (after_block s) (omega (arith, h, shorter))
            (omega (arith, k, shorter)))
    | inr statement ↦ rw (new, statement) refl
  ]
]

-- The loop that drops leading comments ends after at most as many rounds as the text has characters, with
-- a text that begins with no comment; more rounds change nothing.
pub skip_lead_enough :
    (sql : Text)
    → (is_comment (skip_lead (length sql) (trim sql)) ≡ false)
      × ((rounds : ℕ)
          → length sql ≤ rounds
          → skip_lead rounds (trim sql) ≡ skip_lead (length sql) (trim sql))
skip_lead_enough sql = (
  skip_lead-is_comment (length sql) (trim sql) (length-trim sql),
  λ rounds h.
      skip_lead_any rounds (length sql) (trim sql) (omega (arith, h, length-trim sql))
        (length-trim sql),
)
