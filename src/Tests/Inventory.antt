-- ===== src/Tests/Inventory.antt =====
-- A host that was entered by hand before it joined the cluster.
use mathlib.Core.Option.{none, some}
use cangling_update.Base.{true, [], ◌∷◌, refl, here}
use cangling_update.Text.{text}
use cangling_update.Cluster.Registry.{Node}
use cangling_update.Hosts.Table.{HostRow}
use cangling_update.Hosts.Inventory.{Local, cluster_host, sync_inventory}
use cangling_update.Hosts.Known.{Named, Known}
use cangling_update.Hosts.Synced.{sync_inventory-Known}

abbrev here_is : Local
here_is = record {
  hostname = text "master";
  ip = text "10.0.0.1";
  node_id = text "m";
  primary_ip = λ t. none;
  is_ip = λ t. true;
  socket_ip = λ t. some (text "10.0.0.2");
}

abbrev by_hand : HostRow
by_hand = record {
  id = text "u1";
  name = text "old";
  host = text "10.0.0.2";
  ssh_port = 22;
  username = text "admin";
  password_enc = text "v1:00:11";
  kind = text "manual";
  cluster_node_id = [];
  created_at = 1;
  updated_at = 1;
}

abbrev worker : Node
worker = record {
  id = text "w";
  name = text "worker";
  addr = text "10.0.0.2:80";
  version = text "1.0.0";
  role = text "worker";
  info_json = [];
  registered_at = 2;
  last_seen = 3;
}

by_hand-Named : Named by_hand
unfolding text
by_hand-Named h = (refl, λ node_id. refl)

sync_inventory-Known_example :
    Known (sync_inventory here_is (by_hand ∷ []) (worker ∷ []) 9) (text "w") (text "10.0.0.2")
unfolding cluster_host text
sync_inventory-Known_example =
    sync_inventory-Known here_is 9 (by_hand ∷ []) (worker ∷ []) worker (by_hand-Named, tt) (tt, tt)
      (here refl) refl refl
