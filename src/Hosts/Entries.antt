-- ===== src/Hosts/Entries.antt =====
-- Which rows of `managed_hosts` stand for a node of the cluster.
use cangling_update.Base.{
  ℕ, Bool, true, not, List, [], ◌∷◌, ◌≡◌, refl, sym, ◌∙◌, Bool-cases, Option-cases, inl, inr, any,
  is_empty, All, All-mono, All-keep, All-map, All-append, Mem, Mem-All, All-sort_by,
}
use cangling_update.Text.{Text, text, text_eq, text_eq_iff}
use cangling_update.Errors.{ok, >>=-eq-ok, refuse_if-then, ok-subst}
use cangling_update.Cluster.Registry.{Node}
use cangling_update.Hosts.Table.{
  HostRow, SaveHost, local_host_id, has_host_id, validate_input, create_host, saved_row,
  update_host, remove_host, get_row,
}
use cangling_update.Hosts.Inventory.{
  Local, cluster_host, upsert_host, is_manual_at, cluster_id, local_row, renewed, merge_node,
  sync_node, sync_nodes, sync_inventory,
}
use cangling_update.Hosts.Known.{upsert_host-All}

abbrev pub is_cluster : HostRow → Bool
is_cluster r = text_eq r.kind (text "cluster")

-- A row of the cluster is named after its node, and the node is one of these.
abbrev pub StandsFor : List Node → HostRow → Type 0
StandsFor nodes r =
    is_cluster r ≡ true
    → (r.id ≡ cluster_id r.cluster_node_id)
      × ((n : Node) × Mem n nodes × (n.id ≡ r.cluster_node_id))

local_apart : (node_id : Text) → local_host_id ≡ cluster_id node_id → ⊥
unfolding text
local_apart node_id e = absurd (cc e)

renewed-StandsFor :
    (nodes : List Node) (l : Local) (now : ℕ) (r : HostRow)
    → has_host_id local_host_id r ≡ true
    → StandsFor nodes r
    → StandsFor nodes (renewed l now r)
renewed-StandsFor nodes l now r h s e =
    absurd (local_apart r.cluster_node_id (sym ((text_eq_iff r.id local_host_id).0 h) ∙ (s e).0))

merge_node-StandsFor :
    (nodes : List Node) (rows : List HostRow) (now : ℕ) (n : Node) (host : Text)
    → Mem n nodes
    → All (StandsFor nodes) rows
    → All (StandsFor nodes) (merge_node rows now n host)
unfolding merge_node
merge_node-StandsFor nodes rows now n host m a =
    All-keep (StandsFor nodes) (λ r. not (is_manual_at host r)) _
      (upsert_host-All (StandsFor nodes) _ _ rows (λ e. (refl, (n, m, refl)))
        (λ r h s e. ((text_eq_iff r.id (cluster_id n.id)).0 h, (n, m, refl))) a)

sync_node-StandsFor :
    (l : Local) (nodes : List Node) (rows : List HostRow) (now : ℕ) (n : Node)
    → Mem n nodes
    → All (StandsFor nodes) rows
    → All (StandsFor nodes) (sync_node l rows now n)
unfolding sync_node
sync_node-StandsFor l nodes rows now n m a = elim (Bool-cases (text_eq n.id l.node_id)) [
  | inl e ↦ rw e a
  | inr e ↦ elim (Bool-cases (is_empty (cluster_host l n.addr n.info_json))) [
    | inl k ↦ rw (e, k) a
    | inr k ↦ rw (e, k) (merge_node-StandsFor nodes rows now n _ m a)
  ]
]

sync_nodes-StandsFor :
    (l : Local) (nodes : List Node) (rows : List HostRow) (now : ℕ) (ns : List Node)
    → All (λ n. Mem n nodes) ns
    → All (StandsFor nodes) rows
    → All (StandsFor nodes) (sync_nodes l rows now ns)
sync_nodes-StandsFor l nodes rows now [] ms a = a
sync_nodes-StandsFor l nodes rows now (n ∷ ns) ms a =
    sync_nodes-StandsFor l nodes (sync_node l rows now n) now ns ms.1
      (sync_node-StandsFor l nodes rows now n ms.0 a)

pub sync_inventory-StandsFor :
    (l : Local) (rows : List HostRow) (nodes : List Node) (now : ℕ)
    → All (StandsFor nodes) rows
    → All (StandsFor nodes) (sync_inventory l rows nodes now)
unfolding sync_inventory
sync_inventory-StandsFor l rows nodes now a =
    sync_nodes-StandsFor l nodes (upsert_host (renewed l now) (local_row l now) rows) now _
      (All-sort_by (λ n. Mem n nodes) _ nodes (Mem-All (λ n. Mem n nodes) nodes (λ n m. m)))
      (upsert_host-All (StandsFor nodes) (renewed l now) (local_row l now) rows
        (λ e. absurd (unfold text in cc e)) (renewed-StandsFor nodes l now) a)

pub create_host-StandsFor :
    (nodes : List Node) (is_ip : Text → Bool) (encrypt : Text → Text) (rows : List HostRow)
    (now : ℕ) (id : Text) (body : SaveHost) {rows' : List HostRow}
    → create_host is_ip encrypt rows now id body ≡ ok rows'
    → All (StandsFor nodes) rows
    → All (StandsFor nodes) rows'
unfolding create_host
create_host-StandsFor nodes is_ip encrypt rows now id body h a =
    let (input, valid, more) = >>=-eq-ok (validate_input is_ip body) _ h in
    elim (Bool-cases (any (has_host_id id) rows)) [
      | inl e ↦ absurd (cc (rw e at more))
      | inr e ↦
          ok-subst (All (StandsFor nodes)) (rw e at more)
            (All-append (StandsFor nodes) rows _ a (λ k. absurd (unfold text in cc k), tt))
    ]

saved_row-StandsFor :
    (nodes : List Node) (id password_enc : Text) (input : SaveHost) (now : ℕ) (r : HostRow)
    → StandsFor nodes r
    → StandsFor nodes (saved_row id input password_enc now r)
saved_row-StandsFor nodes id password_enc input now r s = elim (Bool-cases (has_host_id id r)) [
  | inl e ↦ rw e s
  | inr e ↦ rw e s
]

pub update_host-StandsFor :
    (nodes : List Node) (is_ip : Text → Bool) (encrypt : Text → Text) (rows : List HostRow)
    (now : ℕ) (id : Text) (body : SaveHost) {rows' : List HostRow}
    → update_host is_ip encrypt rows now id body ≡ ok rows'
    → All (StandsFor nodes) rows
    → All (StandsFor nodes) rows'
unfolding update_host
update_host-StandsFor nodes is_ip encrypt rows now id body h a =
    let (other, h1) = refuse_if-then (text_eq id local_host_id) _ _ h in
    let (input, valid, more) = >>=-eq-ok (validate_input is_ip body) _ h1 in
    elim (Option-cases (get_row rows id)) [
      | inl missing ↦ absurd (cc (rw missing at more))
      | inr (current, found) ↦ ok-subst (All (StandsFor nodes)) (rw found at more) (
          All-map (StandsFor nodes) _ rows
            (All-mono (StandsFor nodes) _ rows (saved_row-StandsFor nodes id _ input now) a))
    ]

pub remove_host-StandsFor :
    (nodes : List Node) (rows : List HostRow) (id : Text) {rows' : List HostRow}
    → remove_host rows id ≡ ok rows'
    → All (StandsFor nodes) rows
    → All (StandsFor nodes) rows'
unfolding remove_host
remove_host-StandsFor nodes rows id h a = elim (Option-cases (get_row rows id)) [
  | inl missing ↦ absurd (cc (rw (remove_host, missing) at h))
  | inr (r, found) ↦
      let (manual, last) =
        refuse_if-then (not (text_eq r.kind (text "manual"))) _ _ (rw (remove_host, found) at h) in
      ok-subst (All (StandsFor nodes)) last
        (All-keep (StandsFor nodes) (λ s. not (has_host_id id s)) rows a)
]
