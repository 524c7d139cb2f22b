-- ===== src/Base/Pairs.antt =====
-- Relations between the elements of a list, and what maps and appends keep of them.
use mathlib.Core.Bool.{Bool, false}
use mathlib.Core.List.{List, [], ◌∷◌, ◌++◌, map}
use mathlib.Core.Logic.{inl, inr}
use mathlib.Core.Path.{◌≡◌, refl, ap}
use native.Mathlib.Omega.{arith}
use cangling_update.Base.Tests.{Bool-cases}
use mathlib.Core.Option.{some}
use cangling_update.Base.Lists.{find, All, here, there, keep, any, All-keep}
use cangling_update.Base.Sorts.{Mem, Mem-All, All-Mem, Pairwise}

module _ {ℓ κ} {A : Type ℓ} (R : A → A → Type κ) where
  pub keep-Pairwise : (p : A → Bool) (xs : List A) → Pairwise R xs → Pairwise R (keep p xs)
  keep-Pairwise p [] d = tt
  keep-Pairwise p (x ∷ xs) d = elim (Bool-cases (p x)) [
    | inl e ↦ rw e (All-keep (R x) p xs d.0, keep-Pairwise p xs d.1)
    | inr e ↦ rw e (keep-Pairwise p xs d.1)
  ]

module _ {ℓ κ} {A : Type ℓ} {B : Type κ} where
  pub All-map {μ} :
      (P : B → Type μ) (f : A → B) (xs : List A) → All (λ x. P (f x)) xs → All P (map f xs)
  All-map P f [] a = tt
  All-map P f (x ∷ xs) a = (a.0, All-map P f xs a.1)

  pub Mem-map : (f : A → B) (xs : List A) {x : A} → Mem x xs → Mem (f x) (map f xs)
  Mem-map f [] m = elim m [ ]
  Mem-map f (y ∷ xs) (here same) = here (ap f same)
  Mem-map f (y ∷ xs) (there m) = there (Mem-map f xs m)

  pub find-map :
      (p : A → Bool) (q : B → Bool) (f : A → B) (xs : List A) {x : A}
      → ((y : A) → q (f y) ≡ p y)
      → find p xs ≡ some x
      → find q (map f xs) ≡ some (f x)
  find-map p q f [] h k = cc k
  find-map p q f (y ∷ xs) h k = elim (Bool-cases (p y)) [
    | inl e ↦ rw (h y, e) (let same = rw e at k in ground (arith, same))
    | inr e ↦ rw (h y, e) (find-map p q f xs h (rw e at k))
  ]

module _ {ℓ} {A : Type ℓ} where
  pub All-mono {κ μ} :
      (P : A → Type κ) (Q : A → Type μ) (xs : List A) → ((x : A) → P x → Q x) → All P xs → All Q xs
  All-mono P Q [] f a = tt
  All-mono P Q (x ∷ xs) f a = (f x a.0, All-mono P Q xs f a.1)

  pub All-append {κ} : (P : A → Type κ) (xs ys : List A) → All P xs → All P ys → All P (xs ++ ys)
  All-append P [] ys a b = b
  All-append P (x ∷ xs) ys a b = (a.0, All-append P xs ys a.1 b)

  pub Pairwise-last {κ} :
      (R : A → A → Type κ) (xs : List A) (y : A)
      → Pairwise R xs
      → All (λ x. R x y) xs
      → Pairwise R (xs ++ y ∷ [])
  Pairwise-last R [] y p a = (tt, tt)
  Pairwise-last R (x ∷ xs) y p a =
      (All-append (R x) xs (y ∷ []) p.0 (a.0, tt), Pairwise-last R xs y p.1 a.1)

  pub Pairwise-map {κ} :
      (R : A → A → Type κ) (f : A → A) (xs : List A)
      → ((x y : A) → R x y → R (f x) (f y))
      → Pairwise R xs
      → Pairwise R (map f xs)
  Pairwise-map R f [] h p = tt
  Pairwise-map R f (x ∷ xs) h p = (
    All-map (R (f x)) f xs (All-mono (R x) (λ y. R (f x) (f y)) xs (λ y r. h x y r) p.0),
    Pairwise-map R f xs h p.1,
  )

  pub any-none : (p : A → Bool) (xs : List A) → any p xs ≡ false → All (λ x. p x ≡ false) xs
  any-none p [] h = tt
  any-none p (x ∷ xs) h = (ground arith, any-none p xs (ground arith))

  pub any-map :
      (p : A → Bool) (f : A → A) (xs : List A)
      → ((x : A) → p (f x) ≡ p x)
      → any p (map f xs) ≡ any p xs
  any-map p f [] h = refl
  any-map p f (x ∷ xs) h = rw (h x, any-map p f xs h) refl

  pub Pairwise-into {κ μ} :
      (R : A → A → Type κ) (S : A → A → Type μ) (f : A → A) (xs : List A)
      → ((x y : A) → R x y → S (f x) (f y))
      → Pairwise R xs
      → Pairwise S (map f xs)
  Pairwise-into R S f [] h p = tt
  Pairwise-into R S f (x ∷ xs) h p = (
    All-map (S (f x)) f xs (All-mono (R x) (λ y. S (f x) (f y)) xs (λ y r. h x y r) p.0),
    Pairwise-into R S f xs h p.1,
  )

  pub Pairwise-mono {κ μ} :
      (R : A → A → Type κ) (S : A → A → Type μ) (xs : List A)
      → ((x y : A) → R x y → S x y)
      → Pairwise R xs
      → Pairwise S xs
  Pairwise-mono R S [] h p = tt
  Pairwise-mono R S (x ∷ xs) h p = (All-mono (R x) (S x) xs (h x) p.0, Pairwise-mono R S xs h p.1)

  -- What holds of each element, beside what holds of each pair.
  pub Pairwise-with {κ μ} :
      (F : A → Type κ) (R : A → A → Type μ) (xs : List A)
      → All F xs
      → Pairwise R xs
      → Pairwise (λ x y. F x × F y × R x y) xs
  Pairwise-with F R [] a p = record {}
  Pairwise-with F R (x ∷ xs) a p = (
    Mem-All (λ y. F x × F y × R x y) xs (λ y m. (a.0, All-Mem F xs a.1 m, All-Mem (R x) xs p.0 m)),
    Pairwise-with F R xs a.1 p.1,
  )
