-- ===== src/Base/Maps.antt =====
-- Association lists: the maps and the keyed tables of the program. A key occurs at most once where
-- the tables are written by `insert`; `remove` takes away every entry of the key.
use mathlib.Core.Bool.{Bool, true, false}
use mathlib.Core.List.{List, [], ◌∷◌}
use mathlib.Core.Option.{Option, none, some}
use mathlib.Core.Logic.{◌↔◌, inl, inr}
use mathlib.Core.Path.{◌≡◌, refl, ap, subst}
use native.Mathlib.Omega.{arith}
use cangling_update.Base.Tests.{if◌then◌else◌, Bool-cases}
use cangling_update.Base.Lists.{All, keep}

-- Equality of keys.
pub record Eq {ℓ} (K : Type ℓ) : Type ℓ where
  pub beq : K → K → Bool
  pub beq_iff : (a b : K) → (beq a b ≡ true) ↔ (a ≡ b)

abbrev pub Map {ℓ κ} : Type ℓ → Type κ → Type (ℓ ⊔ κ)
Map K V = List (K × V)

module _ {ℓ κ} {K : Type ℓ} {V : Type κ} ⦃e : Eq K⦄ where
  unfoldable pub lookup : K → Map K V → Option V
  lookup k [] = none
  lookup k ((j, v) ∷ m) = let rest = lookup k m in if e.beq j k then some v else rest

  unfoldable pub insert : K → V → Map K V → Map K V
  insert k v [] = (k, v) ∷ []
  insert k v ((j, w) ∷ m) =
      let rest = insert k v m in if e.beq j k then (k, v) ∷ m else (j, w) ∷ rest

  unfoldable pub remove : K → Map K V → Map K V
  remove k [] = []
  remove k ((j, w) ∷ m) = let rest = remove k m in if e.beq j k then rest else (j, w) ∷ rest

  pub lookup-insert :
      (k j : K) (v : V) (m : Map K V)
      → lookup j (insert k v m) ≡ (if e.beq k j then some v else lookup j m)
  unfolding lookup insert
  lookup-insert k j v [] = refl
  lookup-insert k j v ((i, w) ∷ m) =
      ground (arith, e.beq_iff k j, e.beq_iff i k, e.beq_iff i j, lookup-insert k j v m)

  pub lookup-remove :
      (k j : K) (m : Map K V) → lookup j (remove k m) ≡ (if e.beq k j then none else lookup j m)
  unfolding lookup remove
  lookup-remove k j [] = ground arith
  lookup-remove k j ((i, w) ∷ m) =
      ground (arith, e.beq_iff k j, e.beq_iff i k, e.beq_iff i j, lookup-remove k j m)

  pub lookup-insert_self : (k : K) (v : V) (m : Map K V) → lookup k (insert k v m) ≡ some v
  lookup-insert_self k v m = ground (arith, lookup-insert k k v m, e.beq_iff k k)

  pub lookup-insert_ne :
      (k j : K) (v : V) (m : Map K V) → e.beq k j ≡ false → lookup j (insert k v m) ≡ lookup j m
  lookup-insert_ne k j v m h = ground (arith, lookup-insert k j v m)

  pub All-insert {μ} :
      (P : V → Type μ) (k : K) (v : V) (m : Map K V)
      → P v
      → All (λ x. P x.1) m
      → All (λ x. P x.1) (insert k v m)
  unfolding insert
  All-insert P k v [] h a = (h, tt)
  All-insert P k v ((j, w) ∷ m) h a = elim (Bool-cases (e.beq j k)) [
    | inl same ↦ rw same (h, a.1)
    | inr other ↦ rw other (a.0, All-insert P k v m h a.1)
  ]

  pub All-lookup {μ} :
      (P : V → Type μ) (k : K) (m : Map K V) {v : V}
      → All (λ x. P x.1) m
      → lookup k m ≡ some v
      → P v
  unfolding lookup
  All-lookup P k [] a h = cc
  All-lookup P k ((j, w) ∷ m) {v} a h = elim (Bool-cases (e.beq j k)) [
    | inl same ↦ let first : w ≡ v = cc (rw same at h) in subst P first a.0
    | inr other ↦ All-lookup P k m a.1 (rw other at h)
  ]

  -- An entry that passes a test of the values stays the entry of its key.
  pub lookup-keep :
      (p : V → Bool) (k : K) (m : Map K V) {v : V}
      → lookup k m ≡ some v
      → p v ≡ true
      → lookup k (keep (λ x. p x.1) m) ≡ some v
  unfolding lookup
  lookup-keep p k [] h pv = cc
  lookup-keep p k ((j, w) ∷ m) {v} h pv = elim (Bool-cases (e.beq j k)) [
    | inl same ↦
        let first : w ≡ v = cc (rw same at h) in rw (rw (← first) at pv) (rw same (ap some first))
    | inr other ↦ elim (Bool-cases (p w)) [
      | inl kept ↦ rw (kept, other) (lookup-keep p k m (rw other at h) pv)
      | inr dropped ↦ rw dropped (lookup-keep p k m (rw other at h) pv)
    ]
  ]
