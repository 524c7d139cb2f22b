-- ===== src/Text/Lines.antt =====
-- Laws of `lines` on texts without carriage returns: what lines hold, and lines put one after another.
use cangling_update.Base.{
  ℕ, Bool, true, false, List, [], ◌∷◌, ◌++◌, ◌==◌, if◌then◌else◌, any, ◌≡◌, refl, arith, Bool-cases,
  inl, inr, ap, ◌∙◌, All,
}
use cangling_update.Text.Defs.{Text, prepend, lines}

abbrev pub is_feed : ℕ → Bool
is_feed c = c == b'\n'

abbrev pub is_return : ℕ → Bool
is_return c = c == b'\r'

-- A line as it stands in a file: neither of the two characters that end lines.
abbrev pub IsLine : Text → Type 0
IsLine l = (any is_feed l ≡ false) × (any is_return l ≡ false)

prepend-IsLine :
    (c : ℕ) (ls : List Text)
    → is_feed c ≡ false
    → is_return c ≡ false
    → All IsLine ls
    → All IsLine (prepend c ls)
prepend-IsLine c [] f r a = ((rw f, rw r), tt)
prepend-IsLine c (l ∷ ls) f r (h, a) = ((rw f h.0, rw r h.1), a)

-- One character that is no carriage return.
lines-cons :
    (c : ℕ) (s : Text)
    → is_return c ≡ false
    → lines (c ∷ s) ≡ (if is_feed c then [] ∷ lines s else prepend c (lines s))
unfolding lines
lines-cons c s r = rw r

pub lines-IsLine : (s : Text) → any is_return s ≡ false → All IsLine (lines s)
lines-IsLine [] h = unfold lines in tt
lines-IsLine (c ∷ s) h =
    let r : is_return c ≡ false = ground arith in
    let rest = lines-IsLine s (ground arith) in
    rw (lines-cons c s r) (elim (Bool-cases (is_feed c)) [
      | inl e ↦ rw e ((refl, refl), rest)
      | inr e ↦ rw e (prepend-IsLine c (lines s) e r rest)
    ])

-- A line, its line feed, and more.
pub lines_line : (l rest : Text) → IsLine l → lines (l ++ b'\n' ∷ rest) ≡ l ∷ lines rest
lines_line [] rest h = lines-cons b'\n' rest refl
lines_line (c ∷ l) rest h =
    let f : is_feed c ≡ false = ground arith in
    lines-cons c (l ++ b'\n' ∷ rest) (ground arith)
    ∙ rw f (ap (prepend c) (lines_line l rest (ground arith, ground arith)))

abbrev pub unlines : List Text → Text
unlines [] = []
unlines (l ∷ ls) = l ++ (b'\n' ∷ unlines ls)

pub lines-unlines : (ls : List Text) → All IsLine ls → lines (unlines ls) ≡ ls
lines-unlines [] a = unfold lines in refl
lines-unlines (l ∷ ls) a = lines_line l (unlines ls) a.0 ∙ ap (◌∷◌ l) (lines-unlines ls a.1)

-- The empty line that a line feed adds to an empty text, or to one that ends in a line feed.
abbrev pub pad : Text → List Text
pad [] = [] ∷ []
pad (c ∷ []) = if is_feed c then [] ∷ [] else []
pad (c ∷ d ∷ s) = pad (d ∷ s)

prepend-cons : (c : ℕ) (ls : List Text) → (h : Text) × (t : List Text) × (prepend c ls ≡ h ∷ t)
prepend-cons c [] = (c ∷ [], [], refl)
prepend-cons c (l ∷ ls) = (c ∷ l, ls, refl)

lines_ne_nil :
    (c : ℕ) (s : Text)
    → is_return c ≡ false
    → (h : Text) × (t : List Text) × (lines (c ∷ s) ≡ h ∷ t)
lines_ne_nil c s r = elim (Bool-cases (is_feed c)) [
  | inl e ↦ ([], lines s, rw (lines-cons c s r, e))
  | inr e ↦ let (h, t, same) = prepend-cons c (lines s) in (h, t, rw (lines-cons c s r, e) same)
]

prepend-append :
    (c d : ℕ) (s : Text) (more : List Text)
    → is_return d ≡ false
    → prepend c (lines (d ∷ s) ++ more) ≡ prepend c (lines (d ∷ s)) ++ more
prepend-append c d s more r = let (h, t, same) = lines_ne_nil d s r in rw same

-- A text, a line feed and a text: the lines of one, an empty one if the first has no open line, and the
-- lines of the other.
pub lines-append :
    (a b : Text) → any is_return a ≡ false → lines (a ++ b'\n' ∷ b) ≡ lines a ++ (pad a ++ lines b)
lines-append [] b h = lines-cons b'\n' b refl ∙ unfold lines in refl
lines-append (c ∷ []) b h =
    lines-cons c (b'\n' ∷ b) (ground arith)
    ∙ rw (lines-cons b'\n' b refl, lines-cons c [] (ground arith)) (one (is_feed c))
  where
    one :
        (feed : Bool)
        → (if feed then [] ∷ [] ∷ lines b else prepend c ([] ∷ lines b))
          ≡ (if feed then [] ∷ lines [] else prepend c (lines []))
            ++ ((if feed then [] ∷ [] else []) ++ lines b)
    one true = unfold lines in refl
    one false = unfold lines in refl
lines-append (c ∷ d ∷ s) b h = elim (Bool-cases (is_feed c)) [
  | inl e ↦
      lines-cons c (d ∷ s ++ b'\n' ∷ b) (ground arith)
      ∙ rw (lines-cons c (d ∷ s) (ground arith), e)
          (ap (◌∷◌ []) (lines-append (d ∷ s) b (ground arith)))
  | inr e ↦
      lines-cons c (d ∷ s ++ b'\n' ∷ b) (ground arith)
      ∙ rw (lines-cons c (d ∷ s) (ground arith), e)
          (ap (prepend c) (lines-append (d ∷ s) b (ground arith))
            ∙ prepend-append c d s (pad (d ∷ s) ++ lines b) (ground arith))
]
