-- ===== src/Base/Sorts.antt =====
-- `ORDER BY`: a stable insertion sort, and membership with what it keeps.
use mathlib.Core.Bool.{Bool, true, false}
use Prim.Native.Nat.{suc}
use mathlib.Core.List.{List, [], ◌∷◌, ◌++◌}
use mathlib.Core.Logic.{inl, inr}
use mathlib.Core.Path.{◌≡◌, refl, subst, sym, ap, ◌∙◌}
use cangling_update.Base.Tests.{if◌then◌else◌, Bool-cases}
use cangling_update.Base.Lists.{length, All, Any, here, there, keep, All-keep, all-All, all-keep}

module _ {ℓ} {A : Type ℓ} where
  abbrev pub Mem : A → List A → Type ℓ
  Mem x xs = Any (λ y. x ≡ y) xs

  pub All-Mem {κ} : (P : A → Type κ) (xs : List A) {x : A} → All P xs → Mem x xs → P x
  All-Mem P [] a m = elim m [ ]
  All-Mem P (y ∷ xs) a (here same) = subst P (sym same) a.0
  All-Mem P (y ∷ xs) a (there m) = All-Mem P xs a.1 m

  pub Mem-All {κ} : (P : A → Type κ) (xs : List A) → ((x : A) → Mem x xs → P x) → All P xs
  Mem-All P [] f = tt
  Mem-All P (x ∷ xs) f = (f x (here refl), Mem-All P xs (λ y m. f y (there m)))

  pub Mem-keep : (p : A → Bool) (xs : List A) {x : A} → p x ≡ true → Mem x xs → Mem x (keep p xs)
  Mem-keep p [] h m = elim m [ ]
  Mem-keep p (y ∷ xs) h (here same) = rw (subst (λ z. p z ≡ true) same h) (here same)
  Mem-keep p (y ∷ xs) h (there m) = elim (Bool-cases (p y)) [
    | inl e ↦ rw e (there (Mem-keep p xs h m))
    | inr e ↦ rw e (Mem-keep p xs h m)
  ]

  pub keep-Mem : (p : A → Bool) (xs : List A) {x : A} → Mem x (keep p xs) → Mem x xs × (p x ≡ true)
  keep-Mem p xs m = (
    All-Mem (λ y. Mem y xs) (keep p xs)
        (All-keep (λ y. Mem y xs) p xs (Mem-All (λ y. Mem y xs) xs (λ y inside. inside))) m,
    All-Mem (λ y. p y ≡ true) (keep p xs) (all-All p (keep p xs) (all-keep p xs)) m,
  )

  abbrev pub insert_by : (A → A → Bool) → A → List A → List A
  insert_by le x [] = x ∷ []
  insert_by le x (y ∷ ys) = let rest = insert_by le x ys in if le x y then x ∷ y ∷ ys else y ∷ rest

  unfoldable pub sort_by : (A → A → Bool) → List A → List A
  sort_by le [] = []
  sort_by le (x ∷ xs) = insert_by le x (sort_by le xs)

  All-insert_by {κ} :
      (P : A → Type κ) (le : A → A → Bool) (x : A) (ys : List A)
      → P x
      → All P ys
      → All P (insert_by le x ys)
  All-insert_by P le x [] px a = (px, tt)
  All-insert_by P le x (y ∷ ys) px a = elim (Bool-cases (le x y)) [
    | inl e ↦ rw e (px, a)
    | inr e ↦ rw e (a.0, All-insert_by P le x ys px a.1)
  ]

  pub All-sort_by {κ} :
      (P : A → Type κ) (le : A → A → Bool) (xs : List A) → All P xs → All P (sort_by le xs)
  unfolding sort_by
  All-sort_by P le [] a = tt
  All-sort_by P le (x ∷ xs) a = All-insert_by P le x _ a.0 (All-sort_by P le xs a.1)

  Mem-swap :
      (x y : A) (xs zs : List A) {z : A}
      → (Mem z (x ∷ xs) → Mem z zs)
      → Mem z (x ∷ y ∷ xs)
      → Mem z (y ∷ zs)
  Mem-swap x y xs zs f (here same) = there (f (here same))
  Mem-swap x y xs zs f (there (here same)) = here same
  Mem-swap x y xs zs f (there (there m)) = there (f (there m))

  Mem-insert_by :
      (le : A → A → Bool) (x : A) (ys : List A) {z : A} → Mem z (x ∷ ys) → Mem z (insert_by le x ys)
  Mem-insert_by le x [] m = m
  Mem-insert_by le x (y ∷ ys) m = elim (Bool-cases (le x y)) [
    | inl e ↦ rw e m
    | inr e ↦ rw e (Mem-swap x y ys (insert_by le x ys) (λ i. Mem-insert_by le x ys i) m)
  ]

  pub Mem-sort_by : (le : A → A → Bool) (xs : List A) {z : A} → Mem z xs → Mem z (sort_by le xs)
  unfolding sort_by
  Mem-sort_by le [] m = elim m [ ]
  Mem-sort_by le (x ∷ xs) (here same) = Mem-insert_by le x _ (here same)
  Mem-sort_by le (x ∷ xs) (there m) = Mem-insert_by le x _ (there (Mem-sort_by le xs m))

  -- Each element is related to those behind it.
  abbrev pub Pairwise {κ} : (A → A → Type κ) → List A → Type (ℓ ⊔ κ)
  Pairwise R [] = Unit
  Pairwise R (x ∷ xs) = All (R x) xs × Pairwise R xs

  abbrev pub Sorted : (A → A → Bool) → List A → Type ℓ
  Sorted le xs = Pairwise (λ x y. le x y ≡ true) xs

  module _ {κ} (R : A → A → Type κ) (swap : (x y : A) → R x y → R y x) (le : A → A → Bool) where
    insert_by-Pairwise :
        (x : A) (ys : List A) → All (R x) ys → Pairwise R ys → Pairwise R (insert_by le x ys)
    insert_by-Pairwise x [] a p = (tt, tt)
    insert_by-Pairwise x (y ∷ ys) a p = elim (Bool-cases (le x y)) [
      | inl e ↦ rw e (a, p)
      | inr e ↦
          rw e (All-insert_by (R y) le x ys (swap x y a.0) p.0, insert_by-Pairwise x ys a.1 p.1)
    ]

    pub sort_by-Pairwise : (xs : List A) → Pairwise R xs → Pairwise R (sort_by le xs)
    unfolding sort_by
    sort_by-Pairwise [] p = tt
    sort_by-Pairwise (x ∷ xs) p =
        insert_by-Pairwise x _ (All-sort_by (R x) le xs p.0) (sort_by-Pairwise xs p.1)

  module _ (le : A → A → Bool) (total : (x y : A) → le x y ≡ false → le y x ≡ true)
      (trans : (x y z : A) → le x y ≡ true → le y z ≡ true → le x z ≡ true) where
    insert_by-Sorted : (x : A) (ys : List A) → Sorted le ys → Sorted le (insert_by le x ys)
    insert_by-Sorted x [] s = (tt, tt)
    insert_by-Sorted x (y ∷ ys) s = elim (Bool-cases (le x y)) [
      | inl e ↦ rw e (
        (
          e,
          Mem-All (λ z. le x z ≡ true) ys
              (λ z m. trans x y z e (All-Mem (λ z. le y z ≡ true) ys s.0 m)),
        ),
        s,
      )
      | inr e ↦
          rw e (
            All-insert_by (λ z. le y z ≡ true) le x ys (total x y e) s.0,
            insert_by-Sorted x ys s.1,
          )
    ]

    pub sort_by-Sorted : (xs : List A) → Sorted le (sort_by le xs)
    unfolding sort_by
    sort_by-Sorted [] = tt
    sort_by-Sorted (x ∷ xs) = insert_by-Sorted x _ (sort_by-Sorted xs)

module _ {ℓ} {A : Type ℓ} (le : A → A → Bool) where
  insert_by-append :
      (y x : A) (ys : List A) → le y x ≡ false → insert_by le y (x ∷ ys) ≡ x ∷ insert_by le y ys
  insert_by-append y x ys h = rw h refl

  -- What stands behind all of a list by the order, and is put at its end, is sorted to the front where
  -- none of the list may stand before it.
  pub sort_by-last :
      (xs : List A) (x : A)
      → All (λ y. le y x ≡ false) xs
      → sort_by le (xs ++ x ∷ []) ≡ x ∷ sort_by le xs
  unfolding sort_by
  sort_by-last [] x a = refl
  sort_by-last (y ∷ xs) x a = rw (sort_by-last xs x a.1) (insert_by-append y x (sort_by le xs) a.0)

  length-insert_by : (x : A) (ys : List A) → length (insert_by le x ys) ≡ suc (length ys)
  length-insert_by x [] = refl
  length-insert_by x (y ∷ ys) = elim (Bool-cases (le x y)) [
    | inl e ↦ rw e refl
    | inr e ↦ rw e (ap suc (length-insert_by x ys))
  ]

  pub length-sort_by : (xs : List A) → length (sort_by le xs) ≡ length xs
  unfolding sort_by
  length-sort_by [] = refl
  length-sort_by (x ∷ xs) = length-insert_by x (sort_by le xs) ∙ ap suc (length-sort_by xs)
