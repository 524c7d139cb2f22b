-- ===== src/Stats/Once.antt =====
-- Each complete line of a log is counted once, however the log is cut into pieces and scans.
use mathlib.Core.Option.{Option, none, some}
use mathlib.Core.List.{append_assoc, append-nil}
use cangling_update.Base.{
  ℕ, Bool, true, false, ◌==◌, List, [], ◌∷◌, ◌++◌, if◌then◌else◌, is_empty, keep, any, any-append,
  ◌≡◌, refl, sym, ap, ◌∙◌, arith, Bool-cases, inl, inr,
}
use cangling_update.Text.{split, split_by, prepend}
use cangling_update.Stats.Scan.{feed, with_char, split_at_last, is_filled, cut_lines, batch}

-- A reader that takes one byte after another: the lines that have ended, and the one that is open.
abbrev pub take_byte : List (List ℕ) × List ℕ → ℕ → List (List ℕ) × List ℕ
take_byte (done, open_line) c =
    if c == feed
    then (if is_empty open_line then done else done ++ open_line ∷ [], [])
    else (done, open_line ++ c ∷ [])

unfoldable pub read_bytes : List (List ℕ) × List ℕ → List ℕ → List (List ℕ) × List ℕ
read_bytes st [] = st
read_bytes st (c ∷ cs) = read_bytes (take_byte st c) cs

pub read_bytes-append :
    (st : List (List ℕ) × List ℕ) (a b : List ℕ)
    → read_bytes st (a ++ b) ≡ read_bytes (read_bytes st a) b
unfolding read_bytes
read_bytes-append st [] b = refl
read_bytes-append st (c ∷ a) b = read_bytes-append (take_byte st c) a b

-- The open line in front of the first of the pieces.
abbrev attach : List ℕ → List (List ℕ) → List (List ℕ)
attach open_line [] = open_line ∷ []
attach open_line (l ∷ ls) = (open_line ++ l) ∷ ls

abbrev onto : List (List ℕ) → List ℕ → List ℕ → Option (List ℕ × List ℕ) → List (List ℕ) × List ℕ
onto done open_line p none = (done, open_line ++ p)
onto done open_line p (some (head, rest)) =
    (done ++ keep is_filled (attach open_line (split feed head)), rest)

attach-prepend :
    (open_line : List ℕ) (c : ℕ) (ls : List (List ℕ))
    → attach (open_line ++ c ∷ []) ls ≡ attach open_line (prepend c ls)
attach-prepend open_line c [] = refl
attach-prepend open_line c (l ∷ ls) = ap (λ x. x ∷ ls) (append_assoc open_line (c ∷ []) l)

keep-attach_nil : (ls : List (List ℕ)) → keep is_filled (attach [] ls) ≡ keep is_filled ls
keep-attach_nil [] = refl
keep-attach_nil (l ∷ ls) = refl

keep_first :
    (done ls : List (List ℕ)) (l : List ℕ)
    → done ++ keep is_filled (l ∷ ls)
      ≡ (if is_empty l then done else done ++ l ∷ []) ++ keep is_filled ls
keep_first done ls [] = refl
keep_first done ls (x ∷ l) = sym (append_assoc done ((x ∷ l) ∷ []) (keep is_filled ls))

abbrev closed : List (List ℕ) → List ℕ → List (List ℕ)
closed done open_line = if is_empty open_line then done else done ++ open_line ∷ []

onto-feed :
    (done : List (List ℕ)) (open_line cs : List ℕ) (c : ℕ) (r : Option (List ℕ × List ℕ))
    → (c == feed) ≡ true
    → onto done open_line (c ∷ cs) (with_char c cs r) ≡ onto (closed done open_line) [] cs r
unfolding split_by
onto-feed done open_line cs c none e =
    rw (e, e, append-nil open_line)
      (ap (λ d. (d, cs)) (keep_first done ([] ∷ []) open_line ∙ append-nil (closed done open_line)))
onto-feed done open_line cs c (some (head, rest)) e =
    rw (e, append-nil open_line)
      (ap (λ d. (d, rest))
        (keep_first done (split feed head) open_line
          ∙ ap (λ ls. closed done open_line ++ ls) (sym (keep-attach_nil (split feed head)))))

onto-other :
    (done : List (List ℕ)) (open_line cs : List ℕ) (c : ℕ) (r : Option (List ℕ × List ℕ))
    → (c == feed) ≡ false
    → onto done open_line (c ∷ cs) (with_char c cs r) ≡ onto done (open_line ++ c ∷ []) cs r
unfolding split_by
onto-other done open_line cs c none e =
    rw e (ap (λ l. (done, l)) (sym (append_assoc open_line (c ∷ []) cs)))
onto-other done open_line cs c (some (head, rest)) e = rw e (
    ap (λ ls. (done ++ keep is_filled ls, rest))
      (sym (attach-prepend open_line c (split feed head))))

read_bytes-onto :
    (done : List (List ℕ)) (open_line p : List ℕ)
    → read_bytes (done, open_line) p ≡ onto done open_line p (split_at_last p)
unfolding read_bytes split_at_last
read_bytes-onto done open_line [] = ap (λ l. (done, l)) (sym (append-nil open_line))
read_bytes-onto done open_line (c ∷ cs) = elim (Bool-cases (c == feed)) [
  | inl e ↦
      rw (onto-feed done open_line cs c (split_at_last cs) e, e)
        (read_bytes-onto (closed done open_line) [] cs)
  | inr e ↦
      rw (onto-other done open_line cs c (split_at_last cs) e, e)
        (read_bytes-onto done (open_line ++ c ∷ []) cs)
]

pub batch-read_bytes : (p : List ℕ) → batch p ≡ read_bytes ([], []) p
unfolding batch
batch-read_bytes p = alike (split_at_last p) ∙ sym (read_bytes-onto [] [] p)
  where
    alike : (r : Option (List ℕ × List ℕ)) → cut_lines p r ≡ onto [] [] p r
    alike none = refl
    alike (some (head, rest)) = ap (λ ls. (ls, rest)) (sym (keep-attach_nil (split feed head)))

-- The lines that have ended before stay in front.
pub read_bytes-done :
    (done : List (List ℕ)) (open_line p : List ℕ)
    → read_bytes (done, open_line) p
      ≡ (done ++ (read_bytes ([], open_line) p).0, (read_bytes ([], open_line) p).1)
read_bytes-done done open_line p =
    read_bytes-onto done open_line p
    ∙ alike (split_at_last p)
    ∙ ap (λ st. (done ++ st.0, st.1)) (sym (read_bytes-onto [] open_line p))
  where
    alike :
        (r : Option (List ℕ × List ℕ))
        → onto done open_line p r ≡ (done ++ (onto [] open_line p r).0, (onto [] open_line p r).1)
    alike none = ap (λ d. (d, open_line ++ p)) (sym (append-nil done))
    alike (some (head, rest)) = refl

abbrev pub is_feed : ℕ → Bool
is_feed c = c == feed

-- An open line holds no line feed.
pub read_bytes-open :
    (done : List (List ℕ)) (open_line p : List ℕ)
    → any is_feed open_line ≡ false
    → any is_feed (read_bytes (done, open_line) p).1 ≡ false
unfolding read_bytes
read_bytes-open done open_line [] h = h
read_bytes-open done open_line (c ∷ cs) h = elim (Bool-cases (c == feed)) [
  | inl e ↦
      let same : take_byte (done, open_line) c ≡ (closed done open_line, []) = rw e refl in
      ap (λ st. any is_feed (read_bytes st cs).1) same
      ∙ read_bytes-open (closed done open_line) [] cs refl
  | inr e ↦
      let same : take_byte (done, open_line) c ≡ (done, open_line ++ c ∷ []) = rw e refl in
      ap (λ st. any is_feed (read_bytes st cs).1) same
      ∙ read_bytes-open done (open_line ++ c ∷ []) cs
          (any-append is_feed open_line (c ∷ []) ∙ rw (h, e) refl)
]

pub read_open :
    (done : List (List ℕ)) (open_line p : List ℕ)
    → any is_feed p ≡ false
    → read_bytes (done, open_line) p ≡ (done, open_line ++ p)
unfolding read_bytes
read_open done open_line [] h = ap (λ l. (done, l)) (sym (append-nil open_line))
read_open done open_line (c ∷ cs) h =
    let e : (c == feed) ≡ false = ground arith in
    rw e (
      read_open done (open_line ++ c ∷ []) cs (ground arith)
      ∙ ap (λ l. (done, l)) (append_assoc open_line (c ∷ []) cs))
