-- ===== src/Cluster/Merge/Kept.antt =====
-- What a merge keeps of the tables' keys and references.
use cangling_update.Base.{true, not, List, [], ◌∷◌, ◌≡◌, Mem, keep-Pairwise, sort_by}
use cangling_update.Text.{Text, text, text_eq}
use cangling_update.Hosts.Table.{HostRow}
use cangling_update.Cluster.Registry.{
  Node, Registry, fresher, stale_nodes, has_node_id, delete_node, delete_nodes, dedupe_nodes,
}
use cangling_update.Cluster.Merge.{
  Apart, DistinctIds, delete_nodes-left, delete_nodes-kept, delete_nodes-host,
}

-- A merge adds no row.
pub dedupe_nodes-Mem :
    (reg : Registry) {n : Node} → Mem n (dedupe_nodes reg).0.nodes → Mem n reg.nodes
unfolding dedupe_nodes
dedupe_nodes-Mem reg m = (delete_nodes-left (stale_nodes [] (sort_by fresher reg.nodes)) reg m).0

delete_nodes-DistinctIds :
    (ids : List Text) (reg : Registry)
    → DistinctIds reg.nodes
    → DistinctIds (delete_nodes reg ids).nodes
unfolding delete_nodes delete_node
delete_nodes-DistinctIds [] reg d = d
delete_nodes-DistinctIds (id ∷ ids) reg d =
    delete_nodes-DistinctIds ids (delete_node reg id)
      (keep-Pairwise Apart (λ n. not (has_node_id id n)) reg.nodes d)

pub dedupe_nodes-DistinctIds :
    (reg : Registry) → DistinctIds reg.nodes → DistinctIds (dedupe_nodes reg).0.nodes
unfolding dedupe_nodes
dedupe_nodes-DistinctIds reg d =
    delete_nodes-DistinctIds (stale_nodes [] (sort_by fresher reg.nodes)) reg d

-- Each host entry made for a node refers to one that is in the table.
abbrev pub Refers : Registry → Type 0
Refers reg =
    (h : HostRow)
    → Mem h reg.hosts
    → text_eq h.kind (text "cluster") ≡ true
    → (n : Node) × Mem n reg.nodes × (n.id ≡ h.cluster_node_id)

-- A merge takes the host entries of the nodes that it takes away, so that no entry is left without
-- its node.
pub dedupe_nodes-Refers : (reg : Registry) → Refers reg → Refers (dedupe_nodes reg).0
unfolding dedupe_nodes
dedupe_nodes-Refers reg r h m e =
    let stale = stale_nodes [] (sort_by fresher reg.nodes) in
    let (before, kept) = delete_nodes-host stale reg m in
    let (n, inside, same) = r h before e in
    (n, delete_nodes-kept stale reg inside (rw same (kept e)), same)

-- A merge adds no host.
pub dedupe_nodes-hosts :
    (reg : Registry) {h : HostRow} → Mem h (dedupe_nodes reg).0.hosts → Mem h reg.hosts
unfolding dedupe_nodes
dedupe_nodes-hosts reg m = (delete_nodes-host (stale_nodes [] (sort_by fresher reg.nodes)) reg m).0
