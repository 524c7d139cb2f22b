-- ===== src/Cluster/Merge/Freshest.antt =====
-- The row that a merge keeps is the one heard from last.
use cangling_update.Base.{
  ◌≤◌, true, false, List, [], ◌∷◌, any, ◌≡◌, refl, sym, subst, arith, Bool-cases, inl, inr, All,
  Mem, here, there, All-Mem, Mem-All, Sorted, sort_by, sort_by-Sorted, sort_by-Pairwise,
  Mem-sort_by, All-sort_by,
}
use cangling_update.Text.{Text, text_eq, text_eq_iff}
use cangling_update.Cluster.Registry.{
  Node, Registry, same_place, fresher, stale_nodes, listed, dedupe_nodes,
}
use cangling_update.Cluster.Merge.{
  Apart, DistinctIds, Apart-sym, fresher_total, fresher_trans, any_moved, delete_nodes-kept,
}

-- Stale identifiers are those of rows.
stale_nodes-Apart :
    (seen rows : List Node) (n : Node)
    → All (Apart n) rows
    → listed (stale_nodes seen rows) n.id ≡ false
unfolding stale_nodes
stale_nodes-Apart seen [] n a = refl
stale_nodes-Apart seen (r ∷ rows) n a = elim (Bool-cases (any (same_place r) seen)) [
  | inl e ↦ rw (e, a.0) (stale_nodes-Apart seen rows n a.1)
  | inr e ↦ rw e (stale_nodes-Apart (r ∷ seen) rows n a.1)
]

same_place_refl : (n : Node) → same_place n n ≡ true
same_place_refl n = ground (arith, text_eq_iff n.role n.role, text_eq_iff n.addr n.addr)

-- A row of the place of `n` that is kept, and is no less fresh.
abbrev Stands : List Node → List Text → Node → Type 0
Stands rows stale n =
    (m : Node) × Mem m rows
    × (listed stale m.id ≡ false)
    × (same_place n m ≡ true)
    × (fresher m n ≡ true)

stale_nodes-Stands :
    (seen rows : List Node) {n : Node}
    → Sorted fresher rows
    → DistinctIds rows
    → Mem n rows
    → any (same_place n) seen ≡ false
    → Stands rows (stale_nodes seen rows) n
unfolding stale_nodes
stale_nodes-Stands seen [] s d m h = elim m [ ]
stale_nodes-Stands seen (r ∷ rows) {n} s d (here same) h =
    let e : any (same_place r) seen ≡ false = subst (λ k. any (same_place k) seen ≡ false) same h in
    (
      r,
      here refl,
      rw e (stale_nodes-Apart (r ∷ seen) rows r d.0),
      subst (λ k. same_place k r ≡ true) (sym same) (same_place_refl r),
      subst (λ k. fresher r k ≡ true) (sym same) (ground arith),
    )
stale_nodes-Stands seen (r ∷ rows) {n} s d (there m) h = elim (Bool-cases (same_place n r)) [
  | inl p ↦
      let e : any (same_place r) seen ≡ false = elim (Bool-cases (any (same_place r) seen)) [
        | inl old ↦ absurd (let moved = any_moved n r seen p old in ground arith)
        | inr new ↦ new
      ] in
      (
        r,
        here refl,
        rw e (stale_nodes-Apart (r ∷ seen) rows r d.0),
        p,
        All-Mem (λ k. fresher r k ≡ true) rows s.0 m,
      )
  | inr p ↦ elim (Bool-cases (any (same_place r) seen)) [
    | inl e ↦
        let (k, inside, kept, place, fresh) = stale_nodes-Stands seen rows s.1 d.1 m h in
        let other : text_eq r.id k.id ≡ false = All-Mem (Apart r) rows d.0 inside in
        (
          k,
          there inside,
          rw e (ground (arith, text_eq_iff r.id k.id, text_eq_iff k.id r.id)),
          place,
          fresh,
        )
    | inr e ↦
        let (k, inside, kept, place, fresh) =
          stale_nodes-Stands (r ∷ seen) rows s.1 d.1 m (ground arith) in
        (k, there inside, rw e kept, place, fresh)
  ]
]

-- Of every node that was in the table, one with its role and address is still there after a merge, and
-- was heard from no earlier; identifiers occur once.
pub dedupe_nodes_freshest :
    (reg : Registry) {n : Node}
    → DistinctIds reg.nodes
    → Mem n reg.nodes
    → (m : Node) × Mem m (dedupe_nodes reg).0.nodes
      × (same_place n m ≡ true)
      × (n.last_seen ≤ m.last_seen)
unfolding dedupe_nodes
dedupe_nodes_freshest reg {n} d m =
    let rows = sort_by fresher reg.nodes in
    let (k, inside, kept, place, fresh) =
      stale_nodes-Stands [] rows (sort_by-Sorted fresher fresher_total fresher_trans reg.nodes)
        (sort_by-Pairwise Apart Apart-sym fresher reg.nodes d) (Mem-sort_by fresher reg.nodes m)
        refl in
    (
      k,
      delete_nodes-kept (stale_nodes [] rows) reg
          (All-Mem (λ x. Mem x reg.nodes) rows
            (All-sort_by (λ x. Mem x reg.nodes) fresher reg.nodes
              (Mem-All (λ x. Mem x reg.nodes) reg.nodes (λ x i. i)))
            inside)
          kept,
      place,
      ground arith,
    )
