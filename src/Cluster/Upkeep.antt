-- ===== src/Cluster/Upkeep.antt =====
-- What keeps the registry up besides the requests of workers: `maintain_self_node` of
-- src/cluster/server.rs, one round of its loop, and `update_local_hostname` of src/hosts.rs, after
-- hostnamectl has run.
use mathlib.Core.Option.{Option, none, some}
use cangling_update.Base.{ℕ, List, map, if◌then◌else◌}
use cangling_update.Text.{Text, text}
use cangling_update.Errors.{Result, ok, ◌>>=◌}
use cangling_update.Cluster.Registry.{
  Node, Registry, has_node_id, upsert_node, touch_node, with_nodes,
}
use cangling_update.Hosts.Table.{HostRow, validate_hostname}
use cangling_update.Hosts.Inventory.{Local, sync_inventory}

-- What the master knows of itself when it has looked again.
pub record SelfSnapshot : Type 0 where
  pub name : Text
  pub addr : Text
  pub version : Text
  pub info_json : Text

-- A fresh snapshot is written down; without one the row is touched only.
unfoldable pub maintain_self_node : Registry → Text → Option SelfSnapshot → ℕ → Registry
unfolding upsert_node touch_node
maintain_self_node reg id none now = (touch_node reg id now none).0
maintain_self_node reg id (some s) now =
    upsert_node reg id s.name s.addr s.version (text "master") s.info_json now

abbrev pub with_hosts : Registry → List HostRow → Registry
with_hosts reg hosts = record reg { hosts = hosts }

-- `sync_inventory` on the two tables.
unfoldable pub sync_hosts : Local → Registry → ℕ → Registry
unfolding sync_inventory
sync_hosts l reg now = with_hosts reg (sync_inventory l reg.hosts reg.nodes now)

abbrev pub named_node : Text → Text → Node → Node
named_node id name n = if has_node_id id n then record n { name = name } else n

unfoldable pub update_local_hostname : Local → Registry → ℕ → Text → Result Registry
unfolding validate_hostname sync_hosts
update_local_hostname l reg now raw = validate_hostname raw >>= λ name. ok (
    sync_hosts (record l { hostname = name })
      (with_nodes reg (map (named_node l.node_id name) reg.nodes)) now)
