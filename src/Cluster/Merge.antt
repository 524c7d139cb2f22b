-- ===== src/Cluster/Merge.antt =====
-- What `dedupe_nodes` leaves: one row for each role and address.
pub mod Freshest
pub mod Kept
use cangling_update.Base.{
  ◌≤◌, true, false, not, List, [], ◌∷◌, any, ◌≡◌, refl, sym, ap, ◌∙◌, subst, arith, Bool-cases, inl,
  inr, All, Mem, here, there, keep-Mem, Mem-keep, All-Mem, Mem-All, Sorted, Pairwise, keep-Pairwise,
  sort_by, sort_by-Sorted, sort_by-Pairwise, Mem-sort_by, All-sort_by,
}
use cangling_update.Text.{Text, text, text_eq, text_eq_iff}
use cangling_update.Hosts.Table.{HostRow}
use cangling_update.Cluster.Registry.{
  Node, Registry, same_place, fresher, stale_nodes, listed, of_node, has_node_id, delete_node,
  delete_nodes, dedupe_nodes,
}

-- The primary key of the table.
abbrev pub Apart : Node → Node → Type 0
Apart a b = text_eq a.id b.id ≡ false

abbrev pub DistinctIds : List Node → Type 0
DistinctIds = Pairwise Apart

Apart-sym : (a b : Node) → Apart a b → Apart b a
Apart-sym a b h = ground (arith, text_eq_iff a.id b.id, text_eq_iff b.id a.id)

fresher_total : (a b : Node) → fresher a b ≡ false → fresher b a ≡ true
fresher_total a b h = ground arith

fresher_trans : (a b c : Node) → fresher a b ≡ true → fresher b c ≡ true → fresher a c ≡ true
fresher_trans a b c h k = ground arith

same_place_sym : (a b : Node) → same_place a b ≡ true → same_place b a ≡ true
same_place_sym a b h = ground (
  arith,
  text_eq_iff a.role b.role,
  text_eq_iff b.role a.role,
  text_eq_iff a.addr b.addr,
  text_eq_iff b.addr a.addr,
)

same_place_trans :
    (a b c : Node) → same_place a b ≡ true → same_place b c ≡ true → same_place a c ≡ true
same_place_trans a b c h k = ground (
  arith,
  text_eq_iff a.role b.role,
  text_eq_iff b.role c.role,
  text_eq_iff a.role c.role,
  text_eq_iff a.addr b.addr,
  text_eq_iff b.addr c.addr,
  text_eq_iff a.addr c.addr,
)

any_moved :
    (a b : Node) (seen : List Node)
    → same_place a b ≡ true
    → any (same_place b) seen ≡ true
    → any (same_place a) seen ≡ true
any_moved a b [] h k = cc k
any_moved a b (c ∷ seen) h k = elim (Bool-cases (same_place b c)) [
  | inl e ↦ rw (same_place_trans a b c h e) refl
  | inr e ↦ ground (arith, any_moved a b seen h)
]

-- What a deletion leaves, and what it takes.
delete_nodes-left :
    (ids : List Text) (reg : Registry) {n : Node}
    → Mem n (delete_nodes reg ids).nodes
    → Mem n reg.nodes × (listed ids n.id ≡ false)
unfolding delete_nodes delete_node
delete_nodes-left [] reg m = (m, refl)
delete_nodes-left (id ∷ ids) reg {n} m =
    let (inside, other) = delete_nodes-left ids (delete_node reg id) m in
    let (before, new) = keep-Mem (λ k. not (has_node_id id k)) reg.nodes inside in
    (before, ground arith)

delete_nodes-kept :
    (ids : List Text) (reg : Registry) {n : Node}
    → Mem n reg.nodes
    → listed ids n.id ≡ false
    → Mem n (delete_nodes reg ids).nodes
unfolding delete_nodes delete_node
delete_nodes-kept [] reg m h = m
delete_nodes-kept (id ∷ ids) reg m h =
    delete_nodes-kept ids (delete_node reg id)
      (Mem-keep (λ k. not (has_node_id id k)) reg.nodes (ground arith) m) (ground arith)

delete_nodes-host :
    (ids : List Text) (reg : Registry) {h : HostRow}
    → Mem h (delete_nodes reg ids).hosts
    → Mem h reg.hosts
      × (text_eq h.kind (text "cluster") ≡ true → listed ids h.cluster_node_id ≡ false)
unfolding delete_nodes delete_node
delete_nodes-host [] reg m = (m, λ e. refl)
delete_nodes-host (id ∷ ids) reg m =
    let (inside, other) = delete_nodes-host ids (delete_node reg id) m in
    let (before, new) = keep-Mem (λ k. not (of_node id k)) reg.hosts inside in
    (before, λ e. let o = other e in ground arith)

-- A row whose place was seen is stale.
stale_nodes-seen :
    (seen rows : List Node) {n : Node}
    → Mem n rows
    → any (same_place n) seen ≡ true
    → listed (stale_nodes seen rows) n.id ≡ true
unfolding stale_nodes
stale_nodes-seen seen [] m h = elim m [ ]
stale_nodes-seen seen (r ∷ rows) (here same) h =
    let e = subst (λ k. any (same_place k) seen ≡ true) same h in
    rw (e, same) (ground (arith, text_eq_iff r.id r.id))
stale_nodes-seen seen (r ∷ rows) {n} (there m) h = elim (Bool-cases (any (same_place r) seen)) [
  | inl e ↦ rw e (ground (arith, stale_nodes-seen seen rows m h))
  | inr e ↦ rw e (stale_nodes-seen (r ∷ seen) rows m (ground arith))
]

-- Of two rows for one place the later one is stale, or the earlier one.
later_stale :
    (seen : List Node) (r : Node) (rows : List Node) {b : Node}
    → Mem b rows
    → listed (stale_nodes seen (r ∷ rows)) r.id ≡ false
    → listed (stale_nodes seen (r ∷ rows)) b.id ≡ false
    → same_place b r ≡ true
    → r.id ≡ b.id
unfolding stale_nodes
later_stale seen r rows {b} m h j p = elim (Bool-cases (any (same_place r) seen)) [
  | inl e ↦ let h' = rw e at h in absurd (ground (arith, text_eq_iff r.id r.id))
  | inr e ↦
      let j' = rw e at j in
      let known = stale_nodes-seen (r ∷ seen) rows m (ground arith) in absurd (ground arith)
]

stale_nodes_unique :
    (seen rows : List Node) {a b : Node}
    → Mem a rows
    → Mem b rows
    → listed (stale_nodes seen rows) a.id ≡ false
    → listed (stale_nodes seen rows) b.id ≡ false
    → same_place a b ≡ true
    → a.id ≡ b.id
unfolding stale_nodes
stale_nodes_unique seen [] m k h j p = elim m [ ]
stale_nodes_unique seen (r ∷ rows) (here sa) (here sb) h j p = rw (sa, sb) refl
stale_nodes_unique seen (r ∷ rows) {a} {b} (here sa) (there k) h j p =
    ap (λ n. n.id) sa
    ∙ later_stale seen r rows k
        (subst (λ n. listed (stale_nodes seen (r ∷ rows)) n.id ≡ false) sa h) j
        (same_place_sym r b (subst (λ n. same_place n b ≡ true) sa p))
stale_nodes_unique seen (r ∷ rows) {a} {b} (there m) (here sb) h j p = sym (
    ap (λ n. n.id) sb
    ∙ later_stale seen r rows m
        (subst (λ n. listed (stale_nodes seen (r ∷ rows)) n.id ≡ false) sb j) h
        (subst (λ n. same_place a n ≡ true) sb p))
stale_nodes_unique seen (r ∷ rows) (there m) (there k) h j p =
    elim (Bool-cases (any (same_place r) seen)) [
      | inl e ↦
          let h' = rw e at h in
          let j' = rw e at j in stale_nodes_unique seen rows m k (ground arith) (ground arith) p
      | inr e ↦ stale_nodes_unique (r ∷ seen) rows m k (rw e at h) (rw e at j) p
    ]

-- After a merge no two rows for one role and address are left: whatever two rows have the same, they are
-- the same node.
pub dedupe_nodes_unique :
    (reg : Registry) {a b : Node}
    → Mem a (dedupe_nodes reg).0.nodes
    → Mem b (dedupe_nodes reg).0.nodes
    → same_place a b ≡ true
    → a.id ≡ b.id
unfolding dedupe_nodes
dedupe_nodes_unique reg m k p =
    let rows = sort_by fresher reg.nodes in
    let (inside_a, kept_a) = delete_nodes-left (stale_nodes [] rows) reg m in
    let (inside_b, kept_b) = delete_nodes-left (stale_nodes [] rows) reg k in
    stale_nodes_unique [] rows (Mem-sort_by fresher reg.nodes inside_a)
      (Mem-sort_by fresher reg.nodes inside_b) kept_a kept_b p
