-- ===== src/Cluster/Upserts.antt =====
-- What an upsert and a touch leave of the table of nodes.
use cangling_update.Base.{
  ℕ, false, List, [], ◌∷◌, Option, none, some, map, ◌≡◌, ◌⊎◌, refl, sym, ap, ◌∙◌, subst, arith,
  Bool-cases, inl, inr, All, Mem, here, there, All-Mem, Mem-All, All-map,
}
use cangling_update.Text.{Text, text_eq, text_eq_iff}
use cangling_update.Cluster.Registry.{Node, upsert, touch_if}
use cangling_update.Cluster.Merge.{Apart, DistinctIds}

-- The row that an upsert writes.
abbrev pub Written : Node → Node → Type 0
Written new n =
    (n.id ≡ new.id)
    × (n.name ≡ new.name)
    × (n.addr ≡ new.addr)
    × (n.version ≡ new.version)
    × (n.role ≡ new.role)
    × (n.last_seen ≡ new.last_seen)

pub upsert-Written :
    (nodes : List Node) (new : Node) → (n : Node) × Mem n (upsert nodes new) × Written new n
unfolding upsert
upsert-Written [] new = (new, here refl, (refl, refl, refl, refl, refl, refl))
upsert-Written (n ∷ nodes) new = elim (Bool-cases (text_eq n.id new.id)) [
  | inl e ↦ (
    record new { registered_at = n.registered_at },
    rw e (here refl),
    (refl, refl, refl, refl, refl, refl),
  )
  | inr e ↦ let (k, inside, w) = upsert-Written nodes new in (k, rw e (there inside), w)
]

pub upsert-old :
    (nodes : List Node) (new : Node) {n : Node}
    → Mem n (upsert nodes new)
    → Written new n ⊎ Mem n nodes
unfolding upsert
upsert-old [] new (here same) = inl (rw same (refl, refl, refl, refl, refl, refl))
upsert-old [] new (there m) = elim m [ ]
upsert-old (k ∷ nodes) new {n} m = elim (Bool-cases (text_eq k.id new.id)) [
  | inl e ↦ elim (rw e at m) [
    | here same ↦ inl (rw same (refl, refl, refl, refl, refl, refl))
    | there later ↦ inr (there later)
  ]
  | inr e ↦ elim (rw e at m) [
    | here same ↦ inr (here same)
    | there later ↦ elim (upsert-old nodes new later) [ inl w ↦ inl w | inr old ↦ inr (there old) ]
  ]
]

All-upsert :
    (P : Node → Type 0) (nodes : List Node) (new : Node)
    → ((t : ℕ) → P (record new { registered_at = t }))
    → All P nodes
    → All P (upsert nodes new)
unfolding upsert
All-upsert P [] new f a = (f new.registered_at, tt)
All-upsert P (n ∷ nodes) new f a = elim (Bool-cases (text_eq n.id new.id)) [
  | inl e ↦ rw e (f n.registered_at, a.1)
  | inr e ↦ rw e (a.0, All-upsert P nodes new f a.1)
]

pub upsert-DistinctIds :
    (nodes : List Node) (new : Node) → DistinctIds nodes → DistinctIds (upsert nodes new)
unfolding upsert
upsert-DistinctIds [] new d = (tt, tt)
upsert-DistinctIds (n ∷ nodes) new d = elim (Bool-cases (text_eq n.id new.id)) [
  | inl e ↦ rw e (
    subst (λ i. All (λ m. text_eq i m.id ≡ false) nodes) ((text_eq_iff n.id new.id).0 e) d.0,
    d.1,
  )
  | inr e ↦ rw e (All-upsert (Apart n) nodes new (λ t. e) d.0, upsert-DistinctIds nodes new d.1)
]

pub touch_if-id :
    (id : Text) (now : ℕ) (info : Option Text) (n : Node) → (touch_if id now info n).id ≡ n.id
touch_if-id id now none n = ground arith
touch_if-id id now (some i) n = ground arith

pub map-DistinctIds :
    (f : Node → Node) (nodes : List Node)
    → ((n : Node) → (f n).id ≡ n.id)
    → DistinctIds nodes
    → DistinctIds (map f nodes)
map-DistinctIds f [] same d = tt
map-DistinctIds f (n ∷ nodes) same d = (
  subst (λ i. All (λ m. text_eq i m.id ≡ false) (map f nodes)) (sym (same n))
      (All-map (λ m. text_eq n.id m.id ≡ false) f nodes
        (Mem-All (λ m. text_eq n.id (f m).id ≡ false) nodes
          (λ m inside. rw (same m) (All-Mem (Apart n) nodes d.0 inside)))),
  map-DistinctIds f nodes same d.1,
)

-- Each node of one table has its identifier in another.
abbrev pub Covers : List Node → List Node → Type 0
Covers before after = (n : Node) → Mem n before → (k : Node) × Mem k after × (k.id ≡ n.id)

pub upsert-Covers : (nodes : List Node) (new : Node) → Covers nodes (upsert nodes new)
unfolding upsert
upsert-Covers [] new n m = elim m [ ]
upsert-Covers (k ∷ nodes) new n (here same) = elim (Bool-cases (text_eq k.id new.id)) [
  | inl e ↦ (
    record new { registered_at = k.registered_at },
    rw e (here refl),
    sym ((text_eq_iff k.id new.id).0 e) ∙ ap (λ x. x.id) (sym same),
  )
  | inr e ↦ (k, rw e (here refl), ap (λ x. x.id) (sym same))
]
upsert-Covers (k ∷ nodes) new n (there m) = elim (Bool-cases (text_eq k.id new.id)) [
  | inl e ↦ (n, rw e (there m), refl)
  | inr e ↦ let (j, inside, same) = upsert-Covers nodes new n m in (j, rw e (there inside), same)
]
