-- ===== src/Tests/Nodes.antt =====
-- A master with two rows for one worker, which was installed anew.
use cangling_update.Base.{
  All, ℕ, ◌-◌, ◌*◌, ◌/◌, ◌<◌, ◌≤◌, true, false, [], ◌∷◌, none, some, ◌≡◌, refl, arith, ltb,
  if◌then◌else◌, Mem, sort_by, here, there,
}
use cangling_update.Text.{Text, text, trim, trim_matches, is_whitespace}
use cangling_update.Auth.Guard.{second}
use cangling_update.Auth.Tables.{
  Db, UserRow, get_user_by_name, update_password_hash, delete_sessions_for_user,
}
use cangling_update.Cluster.Registry.{
  Node, Registry, is_online, get_node, node_online_state, offline_after_secs, dedupe_nodes,
  stale_nodes, delete_nodes,
}
use cangling_update.Cluster.Merge.{DistinctIds}
use cangling_update.Cluster.Requests.{
  Master, RegisterRequest, HeartbeatRequest, register, heartbeat, auth_sync, sync_account,
}
use cangling_update.Hosts.Table.{HostRow}
use cangling_update.Hosts.Inventory.{Local}
use cangling_update.Hosts.Entries.{StandsFor}
use cangling_update.Cluster.Steps.{RegistryInv, syncs, after, after-RegistryInv}
use cangling_update.Cluster.Beats.{Registered, is_worker_at, register_alone, heartbeat_known}
use cangling_update.Cluster.Accounts.{Synced, auth_sync-Synced}

abbrev node : Text → Text → ℕ → Node
node id addr seen = record {
  id = id;
  name = text "w";
  addr = addr;
  version = text "0.1.0";
  role = text "worker";
  info_json = [];
  registered_at = 0;
  last_seen = seen;
}

abbrev host_of_b : HostRow
host_of_b = record {
  id = text "cluster:b";
  name = text "w";
  host = text "10.0.0.2";
  ssh_port = 22;
  username = text "root";
  password_enc = [];
  kind = text "cluster";
  cluster_node_id = text "b";
  created_at = 0;
  updated_at = 0;
}

abbrev registry : Registry
registry = record {
  nodes = node (text "a") (text "10.0.0.2:80") 5 ∷ node (text "b") (text "10.0.0.2:80") 9 ∷ [];
  hosts = host_of_b ∷ [];
}

registry-DistinctIds : DistinctIds registry.nodes
unfolding text
registry-DistinctIds = ((refl, tt), (tt, tt))

registry-StandsFor : All (StandsFor registry.nodes) registry.hosts
unfolding text
registry-StandsFor =
    (λ e. (refl, (node (text "b") (text "10.0.0.2:80") 9, there (here refl), refl)), tt)

abbrev master : Master
master = record {
  version = text "0.2.0";
  store = record { files = []; latest = none; updates_dir = [] };
  arch_of = λ info. none;
}

kept_b : Mem (node (text "b") (text "10.0.0.2:80") 9) (dedupe_nodes registry).0.nodes
unfolding dedupe_nodes stale_nodes delete_nodes sort_by text
kept_b = here refl

abbrev registration : RegisterRequest
registration = record {
  id = text "c";
  name = text "w";
  addr = text "10.0.0.2:80";
  version = text "0.2.0";
  arch = text "x86_64";
  host = record { arch = []; json = text "{}" };
}

all_older :
    (k : Node)
    → Mem k registry.nodes
    → is_worker_at (text "10.0.0.2:80") k ≡ true
    → k.last_seen < 60
all_older k (here same) e = rw same (omega arith)
all_older k (there (here same)) e = rw same (omega arith)
all_older k (there (there m)) e = elim m [ ]

register_alone_example :
    (n : Node) × Mem n (register master registry 60 registration).0.nodes
    × Registered registration 60 n
    × ((k : Node)
        → Mem k (register master registry 60 registration).0.nodes
        → is_worker_at (text "10.0.0.2:80") k ≡ true
        → k.id ≡ text "c")
register_alone_example =
    register_alone master registry 60 registration (unfold trim_matches is_whitespace text in refl)
      registry-DistinctIds all_older

abbrev here_is : Local
here_is = record {
  hostname = text "master";
  ip = text "10.0.0.1";
  node_id = text "m";
  primary_ip = λ t. none;
  is_ip = λ t. true;
  socket_ip = λ t. some (text "10.0.0.2");
}

-- Both nodes get a host.
after-RegistryInv_example : RegistryInv (after master registry 60 (syncs here_is))
after-RegistryInv_example =
    after-RegistryInv master registry 60 (syncs here_is) (registry-DistinctIds, registry-StandsFor)

abbrev beat : Text → HeartbeatRequest
beat id = record { id = id; version = []; arch = []; host = none }

abbrev minute : ℕ
minute = 60 * second

heartbeat_known_example :
    ((heartbeat master registry minute (beat (text "b"))).1.known ≡ true)
    × ((heartbeat master registry minute (beat (text "b"))).1.sync_to
        ≡ (if is_online minute 9 then none else some (text "10.0.0.2:80")))
    × ((later : ℕ)
        → minute ≤ later
        → node_online_state (heartbeat master registry minute (beat (text "b"))).0 later (text "b")
          ≡ some (text "10.0.0.2:80", ltb ((later - minute) / second) offline_after_secs))
heartbeat_known_example =
    heartbeat_known master registry minute (beat (text "b"))
      {n = node (text "b") (text "10.0.0.2:80") 9} (unfold get_node text in refl)

abbrev before_sync : Db
before_sync = record {
  users = record { id = text "u1"; username = text "admin"; password_hash = text "old" } ∷ [];
  sessions = record { token = text "t1"; user_id = text "u1"; last_seen = 0; created_at = 0 } ∷ [];
}

abbrev after_sync : Db
after_sync = record {
  users = record { id = text "u1"; username = text "admin"; password_hash = text "new" } ∷ [];
  sessions = [];
}

auth_sync-Synced_example :
    (u : UserRow) × Synced before_sync after_sync (trim (text "admin")) (text "new") false u
auth_sync-Synced_example =
    auth_sync-Synced (text "constraint failed") before_sync after_sync (text "admin") (text "new")
      (text "u2") false
      (unfold auth_sync sync_account get_user_by_name update_password_hash delete_sessions_for_user
          trim_matches is_whitespace text in
        refl)
