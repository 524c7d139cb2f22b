-- ===== src/Stats/Counts.antt =====
-- What `scan_file` of src/nginx_stats.rs counts over some lines.
use mathlib.Core.Option.{Option, none, some}
use mathlib.Core.List.{append_assoc, append-nil}
use cangling_update.Base.{
  ℕ, ◌+◌, Bool, not, List, [], ◌∷◌, ◌++◌, if◌then◌else◌, length, length-append, keep, ◌≡◌, refl,
  sym, ap, ◌∙◌, subst, arith, Bool-cases, is_some, inl, inr,
}
use cangling_update.Stats.Scan.{ScanResult, count_line, count_lines}

abbrev is_parsed {ℓ} : {E : Type ℓ} → (List ℕ → Option E) → List ℕ → Bool
is_parsed parse l = is_some (parse l)

-- What was counted of a log of these bytes: each of its complete lines, once.
pub record Counted {ℓ} {E : Type ℓ} (parse : List ℕ → Option E) (lines : List (List ℕ))
    (r : ScanResult) : Type 0 where
  pub new_lines : r.new_lines ≡ length lines
  pub parsed_lines : r.parsed_lines ≡ length (keep (is_parsed parse) lines)
  pub skipped_lines : r.skipped_lines ≡ length (keep (λ l. not (is_parsed parse l)) lines)

keep_last {ℓ} :
    {A : Type ℓ} (p : A → Bool) (l : A) (lines : List A)
    → length (keep p (lines ++ l ∷ [])) ≡ length (keep p lines) + (if p l then 1 else 0)
keep_last p l [] = elim (Bool-cases (p l)) [ inl e ↦ rw e refl | inr e ↦ rw e refl ]
keep_last p l (x ∷ lines) = elim (Bool-cases (p x)) [
  | inl e ↦ let before = keep_last p l lines in rw e (omega arith)
  | inr e ↦ rw e (keep_last p l lines)
]

one_line {ℓ} :
    {E : Type ℓ} (parse : List ℕ → Option E) (l : List ℕ) (lines : List (List ℕ)) (r : ScanResult)
    (o : Option E)
    → parse l ≡ o
    → Counted parse lines r
    → Counted parse (lines ++ l ∷ []) (count_line o r)
one_line parse l lines r none e h =
    let parsed = keep_last (is_parsed parse) l lines in
    let skipped = keep_last (λ x. not (is_parsed parse x)) l lines in
    record {
      new_lines = ap (λ n. n + 1) h.new_lines ∙ sym (length-append lines (l ∷ []));
      parsed_lines = h.parsed_lines ∙ sym (parsed ∙ rw e (omega arith));
      skipped_lines = ap (λ n. n + 1) h.skipped_lines ∙ sym (skipped ∙ rw e refl);
    }
one_line parse l lines r (some v) e h =
    let parsed = keep_last (is_parsed parse) l lines in
    let skipped = keep_last (λ x. not (is_parsed parse x)) l lines in
    record {
      new_lines = ap (λ n. n + 1) h.new_lines ∙ sym (length-append lines (l ∷ []));
      parsed_lines = ap (λ n. n + 1) h.parsed_lines ∙ sym (parsed ∙ rw e refl);
      skipped_lines = h.skipped_lines ∙ sym (skipped ∙ rw e (omega arith));
    }

pub count_lines-Counted {ℓ} :
    {E : Type ℓ} (parse : List ℕ → Option E) (more lines : List (List ℕ)) (r : ScanResult)
    → Counted parse lines r
    → Counted parse (lines ++ more) (count_lines parse more r)
count_lines-Counted parse [] lines r h = rw (append-nil lines) h
count_lines-Counted parse (l ∷ more) lines r h =
    subst (λ ls. Counted parse ls (count_lines parse (l ∷ more) r))
      (append_assoc lines (l ∷ []) more)
      (count_lines-Counted parse more (lines ++ l ∷ []) (count_line (parse l) r)
        (one_line parse l lines r (parse l) refl h))

count_line-bytes_read {ℓ} :
    {E : Type ℓ} (o : Option E) (r : ScanResult) → (count_line o r).bytes_read ≡ r.bytes_read
count_line-bytes_read none r = refl
count_line-bytes_read (some v) r = refl

pub count_lines-bytes_read {ℓ} :
    {E : Type ℓ} (parse : List ℕ → Option E) (lines : List (List ℕ)) (r : ScanResult)
    → (count_lines parse lines r).bytes_read ≡ r.bytes_read
count_lines-bytes_read parse [] r = refl
count_lines-bytes_read parse (l ∷ ls) r =
    count_lines-bytes_read parse ls (count_line (parse l) r) ∙ count_line-bytes_read (parse l) r
