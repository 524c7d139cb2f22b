-- ===== src/Text/Pieces.antt =====
-- Laws of splitting and trimming.
use cangling_update.Base.{
  ℕ, Bool, true, false, ◌&&◌, List, [], ◌∷◌, ◌++◌, some, ◌==◌, if◌then◌else◌, is_empty, any, ◌≡◌,
  refl, arith, Bool-cases, inl, inr, ap, ◌∙◌, All,
}
use cangling_update.Text.Defs.{
  Text, prepend, split_by, split_once, trim_start_matches, trim_end_matches, trim_matches,
}

module _ (p : ℕ → Bool) where
  pub split_by-cons : (s : Text) → (h : Text) × (t : List Text) × (split_by p s ≡ h ∷ t)
  unfolding split_by
  split_by-cons [] = ([], [], refl)
  split_by-cons (c ∷ s) = elim (Bool-cases (p c)) [
    | inl e ↦ ([], split_by p s, rw e)
    | inr e ↦ let (h, t, same) = split_by-cons s in (c ∷ h, t, rw (e, same))
  ]

  -- A separator between two texts.
  pub split_by-append :
      (c : ℕ) (a b : Text) → p c ≡ true → split_by p (a ++ c ∷ b) ≡ split_by p a ++ split_by p b
  unfolding split_by
  split_by-append c [] b h = rw h
  split_by-append c (x ∷ a) b h =
      let (y, ys, same) = split_by-cons a in
      elim (Bool-cases (p x)) [
        | inl e ↦ rw e (ap (◌∷◌ []) (split_by-append c a b h))
        | inr e ↦ rw e (ap (prepend x) (split_by-append c a b h) ∙ rw same)
      ]

  pub split_by_whole : (s : Text) → any p s ≡ false → split_by p s ≡ s ∷ []
  unfolding split_by
  split_by_whole [] h = refl
  split_by_whole (c ∷ s) h =
      let e : p c ≡ false = ground arith in rw (e, split_by_whole s (ground arith))

  prepend-All :
      (c : ℕ) (ls : List Text)
      → p c ≡ false
      → All (λ w. any p w ≡ false) ls
      → All (λ w. any p w ≡ false) (prepend c ls)
  prepend-All c [] h a = (rw h, tt)
  prepend-All c (l ∷ ls) h a = (rw h a.0, a.1)

  -- No piece holds a separator.
  pub split_by-All : (s : Text) → All (λ w. any p w ≡ false) (split_by p s)
  unfolding split_by
  split_by-All [] = (refl, tt)
  split_by-All (c ∷ s) = elim (Bool-cases (p c)) [
    | inl e ↦ rw e (refl, split_by-All s)
    | inr e ↦ rw e (prepend-All c (split_by p s) e (split_by-All s))
  ]

  pub trim_start_matches_none : (s : Text) → any p s ≡ false → trim_start_matches p s ≡ s
  unfolding trim_start_matches
  trim_start_matches_none [] h = refl
  trim_start_matches_none (c ∷ s) h = let e : p c ≡ false = ground arith in rw e

  pub trim_end_matches_none : (s : Text) → any p s ≡ false → trim_end_matches p s ≡ s
  unfolding trim_end_matches
  trim_end_matches_none [] h = refl
  trim_end_matches_none (c ∷ s) h =
      let e : p c ≡ false = ground arith in rw (e, trim_end_matches_none s (ground arith))

  pub trim_matches_none : (s : Text) → any p s ≡ false → trim_matches p s ≡ s
  unfolding trim_matches
  trim_matches_none s h = rw (trim_start_matches_none s h, trim_end_matches_none s h)

  -- A character that stays keeps all before it.
  pub trim_end_matches-append :
      (c : ℕ) (a b : Text)
      → p c ≡ false
      → trim_end_matches p (a ++ c ∷ b) ≡ a ++ c ∷ trim_end_matches p b
  unfolding trim_end_matches
  trim_end_matches-append c [] b h = rw h
  trim_end_matches-append c (x ∷ a) b h = rw (trim_end_matches-append c a b h) (kept a)
    where
      kept :
          (a : Text)
          → (if p x && is_empty (a ++ c ∷ trim_end_matches p b)
              then []
              else x ∷ (a ++ c ∷ trim_end_matches p b))
            ≡ x ∷ (a ++ c ∷ trim_end_matches p b)
      kept [] = ground arith
      kept (y ∷ a) = ground arith

  pub trim_start_matches_kept :
      (c : ℕ) (s : Text) → p c ≡ false → trim_start_matches p (c ∷ s) ≡ c ∷ s
  unfolding trim_start_matches
  trim_start_matches_kept c s h = rw h

pub split_once-append :
    (d : ℕ) (a b : Text) → any (λ c. c == d) a ≡ false → split_once d (a ++ d ∷ b) ≡ some (a, b)
split_once-append d [] b h = let e : (d == d) ≡ true = ground arith in rw e
split_once-append d (x ∷ a) b h =
    let e : (x == d) ≡ false = ground arith in rw (e, split_once-append d a b (ground arith))
