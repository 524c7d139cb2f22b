-- ===== src/Hosts/Synced.antt =====
-- What the inventory is good for, over all nodes.
use cangling_update.Base.{
  ℕ, false, List, [], ◌∷◌, is_empty, ◌≡◌, sym, ◌∙◌, subst, Bool-cases, inl, inr, All, Mem, here,
  there, Mem-sort_by, Pairwise, sort_by, sort_by-Pairwise,
}
use cangling_update.Text.{Text, text, text_eq, text_leb}
use cangling_update.Cluster.Registry.{Node}
use cangling_update.Backups.Once.{text_eq_comm}
use cangling_update.Hosts.Table.{HostRow}
use cangling_update.Hosts.Inventory.{Local, cluster_host, sync_node, sync_nodes, sync_inventory}
use cangling_update.Hosts.Known.{
  Named, Known, upsert_host-All, merge_node-Named, merge_node-keeps, merge_node-Known,
}

abbrev pub NodesApart : Node → Node → Type 0
NodesApart a b = text_eq a.id b.id ≡ false

module _ (l : Local) (now : ℕ) where
  -- The address of a node as the inventory reads it.
  abbrev pub host_of : Node → Text
  host_of n = cluster_host l n.addr n.info_json

  sync_node-Named :
      (rows : List HostRow) (m : Node) → All Named rows → All Named (sync_node l rows now m)
  unfolding sync_node
  sync_node-Named rows m a = elim (Bool-cases (text_eq m.id l.node_id)) [
    | inl e ↦ rw e a
    | inr e ↦ elim (Bool-cases (is_empty (host_of m))) [
      | inl k ↦ rw (e, k) a
      | inr k ↦ rw (e, k) (merge_node-Named now m (host_of m) rows a)
    ]
  ]

  sync_node-keeps :
      (rows : List HostRow) (m : Node) (node_id other : Text)
      → All Named rows
      → text_eq node_id m.id ≡ false
      → Known rows node_id other
      → Known (sync_node l rows now m) node_id other
  unfolding sync_node
  sync_node-keeps rows m node_id other a apart h = elim (Bool-cases (text_eq m.id l.node_id)) [
    | inl e ↦ rw e h
    | inr e ↦ elim (Bool-cases (is_empty (host_of m))) [
      | inl k ↦ rw (e, k) h
      | inr k ↦ rw (e, k) (merge_node-keeps now m (host_of m) rows node_id other a apart h)
    ]
  ]

  sync_nodes-keeps :
      (ns : List Node) (rows : List HostRow) (node_id other : Text)
      → All Named rows
      → All (λ m. text_eq node_id m.id ≡ false) ns
      → Known rows node_id other
      → Known (sync_nodes l rows now ns) node_id other
  sync_nodes-keeps [] rows node_id other a apart h = h
  sync_nodes-keeps (m ∷ ns) rows node_id other a apart h =
      sync_nodes-keeps ns (sync_node l rows now m) node_id other (sync_node-Named rows m a) apart.1
        (sync_node-keeps rows m node_id other a apart.0 h)

  sync_nodes-Known :
      (ns : List Node) (rows : List HostRow) (n : Node)
      → All Named rows
      → Pairwise NodesApart ns
      → Mem n ns
      → text_eq n.id l.node_id ≡ false
      → is_empty (host_of n) ≡ false
      → Known (sync_nodes l rows now ns) n.id (host_of n)
  unfolding sync_node
  sync_nodes-Known [] rows n a d m e k = elim m [ ]
  sync_nodes-Known (x ∷ ns) rows n a d (there m) e k =
      sync_nodes-Known ns (sync_node l rows now x) n (sync_node-Named rows x a) d.1 m e k
  sync_nodes-Known (x ∷ ns) rows n a d (here same) e k =
      sync_nodes-keeps ns (sync_node l rows now x) n.id (host_of n) (sync_node-Named rows x a)
        (subst (λ y. All (NodesApart y) ns) (sym same) d.0)
        (subst (λ y. Known (sync_node l rows now y) n.id (host_of n)) same
          (rw (e, k) (merge_node-Known now n (host_of n) rows a)))

  -- Where hosts entered by hand are named apart from this host and the nodes, and no two nodes have one
  -- identifier: each node that is not this host and has an address has a row with that address, and none is
  -- entered by hand for it and the usual port any more.
  pub sync_inventory-Known :
      (rows : List HostRow) (nodes : List Node) (n : Node)
      → All Named rows
      → Pairwise NodesApart nodes
      → Mem n nodes
      → text_eq n.id l.node_id ≡ false
      → is_empty (cluster_host l n.addr n.info_json) ≡ false
      → Known (sync_inventory l rows nodes now) n.id (cluster_host l n.addr n.info_json)
  unfolding sync_inventory text
  sync_inventory-Known rows nodes n a d m e k =
      sync_nodes-Known (sort_by (λ x y. text_leb x.name y.name) nodes) _ n
        (upsert_host-All Named _ _ rows (λ h. absurd (cc h)) (λ r same named. named) a)
        (sort_by-Pairwise NodesApart (λ x y h. text_eq_comm y.id x.id ∙ h)
          (λ x y. text_leb x.name y.name) nodes d)
        (Mem-sort_by (λ x y. text_leb x.name y.name) nodes m) e k
