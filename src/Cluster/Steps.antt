-- ===== src/Cluster/Steps.antt =====
-- Whatever reaches the registry, its two tables stay well formed.
use mathlib.Core.Option.{Option, none, some}
use cangling_update.Base.{
  ℕ, Bool, List, is_empty, map, ◌≡◌, refl, ◌∙◌, Bool-cases, inl, inr, All, All-Mem, Mem-All,
  All-mono, Mem-map,
}
use cangling_update.Text.{Text, text, trim}
use cangling_update.Errors.{Result, ok, err, >>=-eq-ok, ok-subst}
use cangling_update.Cluster.Registry.{
  Node, Registry, upsert, upsert_node, touch_if, touch_node, dedupe_nodes, list_cluster_nodes,
  has_node_id, with_nodes,
}
use cangling_update.Cluster.Merge.{DistinctIds}
use cangling_update.Cluster.Merge.Kept.{
  Refers, dedupe_nodes-Refers, dedupe_nodes-hosts, dedupe_nodes-DistinctIds,
}
use cangling_update.Cluster.Requests.{
  Master, RegisterRequest, HeartbeatRequest, register, heartbeat, json_of,
}
use cangling_update.Cluster.Upserts.{
  Covers, upsert-DistinctIds, upsert-Covers, touch_if-id, map-DistinctIds,
}
use cangling_update.Cluster.Upkeep.{
  SelfSnapshot, maintain_self_node, with_hosts, sync_hosts, named_node, update_local_hostname,
}
use cangling_update.Hosts.Table.{
  HostRow, SaveHost, validate_hostname, create_host, update_host, remove_host,
}
use cangling_update.Hosts.Inventory.{Local}
use cangling_update.Hosts.Entries.{
  StandsFor, sync_inventory-StandsFor, create_host-StandsFor, update_host-StandsFor,
  remove_host-StandsFor,
}

-- Identifiers occur once, and each host entry of the cluster is named after a node of the table.
abbrev pub RegistryInv : Registry → Type 0
RegistryInv reg = DistinctIds reg.nodes × All (StandsFor reg.nodes) reg.hosts

hosts-Covers :
    (before after : List Node) (hosts : List HostRow)
    → Covers before after
    → All (StandsFor before) hosts
    → All (StandsFor after) hosts
hosts-Covers before after hosts c a =
    All-mono (StandsFor before) (StandsFor after) hosts
      (λ h s e.
        let (named, found) = s e in
        let (n, m, same) = found in
        let (k, inside, same_id) = c n m in (named, (k, inside, same_id ∙ same)))
      a

upsert_node-RegistryInv :
    (reg : Registry) (id name addr version role info : Text) (now : ℕ)
    → RegistryInv reg
    → RegistryInv (upsert_node reg id name addr version role info now)
unfolding upsert_node
upsert_node-RegistryInv reg id name addr version role info now (d, a) =
    let new : Node = record {
      id = id;
      name = name;
      addr = addr;
      version = version;
      role = role;
      info_json = info;
      registered_at = now;
      last_seen = now;
    } in
    (
      upsert-DistinctIds reg.nodes new d,
      hosts-Covers reg.nodes (upsert reg.nodes new) reg.hosts (upsert-Covers reg.nodes new) a,
    )

refers : (reg : Registry) → All (StandsFor reg.nodes) reg.hosts → Refers reg
refers reg a h m e = (All-Mem (StandsFor reg.nodes) reg.hosts a m e).1

dedupe_nodes-RegistryInv : (reg : Registry) → RegistryInv reg → RegistryInv (dedupe_nodes reg).0
dedupe_nodes-RegistryInv reg (d, a) = (
  dedupe_nodes-DistinctIds reg d,
  Mem-All (StandsFor (dedupe_nodes reg).0.nodes) (dedupe_nodes reg).0.hosts (λ h m e. (
    (All-Mem (StandsFor reg.nodes) reg.hosts a (dedupe_nodes-hosts reg m) e).0,
    dedupe_nodes-Refers reg (refers reg a) h m e,
  )),
)

touch_node-RegistryInv :
    (reg : Registry) (id : Text) (now : ℕ) (info : Option Text)
    → RegistryInv reg
    → RegistryInv (touch_node reg id now info).0
unfolding touch_node
touch_node-RegistryInv reg id now info (d, a) = (
  map-DistinctIds (touch_if id now info) reg.nodes (touch_if-id id now info) d,
  hosts-Covers reg.nodes _ reg.hosts
      (λ n m. (
        touch_if id now info n,
        Mem-map (touch_if id now info) reg.nodes m,
        touch_if-id id now info n,
      ))
      a,
)

register-RegistryInv :
    (master : Master) (reg : Registry) (now : ℕ) (body : RegisterRequest)
    → RegistryInv reg
    → RegistryInv (register master reg now body).0
unfolding register
register-RegistryInv master reg now body inv = elim (Bool-cases (is_empty (trim body.id))) [
  | inl e ↦ rw e inv
  | inr e ↦ rw e (
      dedupe_nodes-RegistryInv _ (
        upsert_node-RegistryInv reg body.id body.name body.addr body.version (text "worker")
          body.host.json now inv))
]

maintain_self_node-RegistryInv :
    (reg : Registry) (id : Text) (s : Option SelfSnapshot) (now : ℕ)
    → RegistryInv reg
    → RegistryInv (maintain_self_node reg id s now)
unfolding maintain_self_node
maintain_self_node-RegistryInv reg id none now inv = touch_node-RegistryInv reg id now none inv
maintain_self_node-RegistryInv reg id (some s) now inv =
    upsert_node-RegistryInv reg id s.name s.addr s.version (text "master") s.info_json now inv

sync_hosts-RegistryInv :
    (l : Local) (reg : Registry) (now : ℕ) → RegistryInv reg → RegistryInv (sync_hosts l reg now)
unfolding sync_hosts
sync_hosts-RegistryInv l reg now (d, a) = (d, sync_inventory-StandsFor l reg.hosts reg.nodes now a)

named_node-id : (id name : Text) (n : Node) → (named_node id name n).id ≡ n.id
named_node-id id name n = elim (Bool-cases (has_node_id id n)) [
  | inl e ↦ rw e refl
  | inr e ↦ rw e refl
]

named_node-RegistryInv :
    (reg : Registry) (id name : Text)
    → RegistryInv reg
    → RegistryInv (with_nodes reg (map (named_node id name) reg.nodes))
named_node-RegistryInv reg id name (d, a) = (
  map-DistinctIds (named_node id name) reg.nodes (named_node-id id name) d,
  hosts-Covers reg.nodes _ reg.hosts
      (λ n m.
        (named_node id name n, Mem-map (named_node id name) reg.nodes m, named_node-id id name n))
      a,
)

update_local_hostname-RegistryInv :
    (l : Local) (reg reg' : Registry) (now : ℕ) (raw : Text)
    → RegistryInv reg
    → update_local_hostname l reg now raw ≡ ok reg'
    → RegistryInv reg'
unfolding update_local_hostname
update_local_hostname-RegistryInv l reg reg' now raw inv h =
    let (name, valid, last) = >>=-eq-ok (validate_hostname raw) _ h in
    ok-subst RegistryInv last (
      sync_hosts-RegistryInv (record l { hostname = name }) _ now
        (named_node-RegistryInv reg l.node_id name inv))

-- What reaches the two tables, each at its time: a worker's registration and its heartbeat, a round of
-- the master's own upkeep, a listing of the nodes, a synchronisation of the hosts (as the listing of the
-- hosts and other calls make it), a new name of the master, and the hosts that are entered, edited and
-- removed by hand. `encrypt` and `is_ip` are as in Hosts/Table.
pub data Event : Type 0 where
  registers : RegisterRequest → Event
  beats : HeartbeatRequest → Event
  maintains : Text → Option SelfSnapshot → Event
  lists : Event
  syncs : Local → Event
  renames : Local → Text → Event
  enters : (Text → Bool) → (Text → Text) → Text → SaveHost → Event
  edits : (Text → Bool) → (Text → Text) → Text → SaveHost → Event
  removes : Text → Event

abbrev pub reg_or : Registry → Result Registry → Registry
reg_or reg (err e) = reg
reg_or reg (ok reg') = reg'

abbrev pub hosts_or : Registry → Result (List HostRow) → Registry
hosts_or reg (err e) = reg
hosts_or reg (ok hosts) = with_hosts reg hosts

pub after : Master → Registry → ℕ → Event → Registry
after master reg now (registers body) = (register master reg now body).0
after master reg now (beats body) = (heartbeat master reg now body).0
after master reg now (maintains id s) = maintain_self_node reg id s now
after master reg now lists = (list_cluster_nodes reg now).0
after master reg now (syncs l) = sync_hosts l reg now
after master reg now (renames l raw) = reg_or reg (update_local_hostname l reg now raw)
after master reg now (enters is_ip encrypt id body) =
    hosts_or reg (create_host is_ip encrypt reg.hosts now id body)
after master reg now (edits is_ip encrypt id body) =
    hosts_or reg (update_host is_ip encrypt reg.hosts now id body)
after master reg now (removes id) = hosts_or reg (remove_host reg.hosts id)

reg_or-RegistryInv :
    (reg : Registry) (r : Result Registry)
    → RegistryInv reg
    → ((reg' : Registry) → r ≡ ok reg' → RegistryInv reg')
    → RegistryInv (reg_or reg r)
reg_or-RegistryInv reg (err e) inv f = inv
reg_or-RegistryInv reg (ok reg') inv f = f reg' refl

hosts_or-RegistryInv :
    (reg : Registry) (r : Result (List HostRow))
    → RegistryInv reg
    → ((hosts : List HostRow) → r ≡ ok hosts → All (StandsFor reg.nodes) hosts)
    → RegistryInv (hosts_or reg r)
hosts_or-RegistryInv reg (err e) inv f = inv
hosts_or-RegistryInv reg (ok hosts) inv f = (inv.0, f hosts refl)

-- Whatever reaches the two tables, of what `Event` lists: the identifiers of the nodes stay distinct, and
-- each host of the cluster is named after a node that is in the table.
pub after-RegistryInv :
    (master : Master) (reg : Registry) (now : ℕ) (e : Event)
    → RegistryInv reg
    → RegistryInv (after master reg now e)
unfolding after heartbeat list_cluster_nodes
after-RegistryInv master reg now (registers body) inv = register-RegistryInv master reg now body inv
after-RegistryInv master reg now (beats body) inv =
    touch_node-RegistryInv reg body.id now (json_of body.host) inv
after-RegistryInv master reg now (maintains id s) inv =
    maintain_self_node-RegistryInv reg id s now inv
after-RegistryInv master reg now lists inv = dedupe_nodes-RegistryInv reg inv
after-RegistryInv master reg now (syncs l) inv = sync_hosts-RegistryInv l reg now inv
after-RegistryInv master reg now (renames l raw) inv =
    reg_or-RegistryInv reg (update_local_hostname l reg now raw) inv
      (λ reg' h. update_local_hostname-RegistryInv l reg reg' now raw inv h)
after-RegistryInv master reg now (enters is_ip encrypt id body) inv =
    hosts_or-RegistryInv reg (create_host is_ip encrypt reg.hosts now id body) inv
      (λ hosts h. create_host-StandsFor reg.nodes is_ip encrypt reg.hosts now id body h inv.1)
after-RegistryInv master reg now (edits is_ip encrypt id body) inv =
    hosts_or-RegistryInv reg (update_host is_ip encrypt reg.hosts now id body) inv
      (λ hosts h. update_host-StandsFor reg.nodes is_ip encrypt reg.hosts now id body h inv.1)
after-RegistryInv master reg now (removes id) inv =
    hosts_or-RegistryInv reg (remove_host reg.hosts id) inv
      (λ hosts h. remove_host-StandsFor reg.nodes reg.hosts id h inv.1)
