-- ===== src/Cluster/Registry.antt =====
-- The tables `cluster_nodes` and `managed_hosts`, and the statements on them. The times are written by
-- the program only, with `to_rfc3339`, whose texts are ordered like the times; here they are nanoseconds.
use cangling_update.Base.{
  ℕ, ◌-◌, ◌/◌, Bool, not, ◌&&◌, ◌||◌, List, [], ◌∷◌, Option, none, some, ltb, leb, ◌==◌,
  if◌then◌else◌, any, map, keep, find, length, sort_by,
}
use cangling_update.Text.{Text, text, text_eq, text_leb}
use cangling_update.Auth.Guard.{second}
use cangling_update.Hosts.Table.{HostRow}

pub record Node : Type 0 where
  pub id : Text
  pub name : Text
  pub addr : Text
  pub version : Text
  pub role : Text
  pub info_json : Text
  pub registered_at : ℕ
  pub last_seen : ℕ

pub record Registry : Type 0 where
  pub nodes : List Node
  pub hosts : List HostRow

abbrev pub heartbeat_interval_secs : ℕ
heartbeat_interval_secs = 15

abbrev pub offline_after_secs : ℕ
offline_after_secs = 45

-- `num_seconds` cuts off towards 0: a time less than a second ahead counts as just now.
unfoldable pub is_online : ℕ → ℕ → Bool
is_online now last_seen =
    if leb last_seen now
    then ltb ((now - last_seen) / second) offline_after_secs
    else ltb (last_seen - now) second

abbrev pub has_node_id : Text → Node → Bool
has_node_id id n = text_eq n.id id

unfoldable pub upsert : List Node → Node → List Node
upsert [] new = new ∷ []
upsert (n ∷ nodes) new =
    let rest = upsert nodes new in
    if text_eq n.id new.id then record new { registered_at = n.registered_at } ∷ nodes else n ∷ rest

abbrev pub with_nodes : Registry → List Node → Registry
with_nodes reg nodes = record reg { nodes = nodes }

unfoldable pub upsert_node : Registry → Text → Text → Text → Text → Text → Text → ℕ → Registry
upsert_node reg id name addr version role info_json now = with_nodes reg (
    upsert reg.nodes (record {
      id = id;
      name = name;
      addr = addr;
      version = version;
      role = role;
      info_json = info_json;
      registered_at = now;
      last_seen = now;
    }))

-- `ORDER BY last_seen DESC, registered_at DESC`.
abbrev pub fresher : Node → Node → Bool
fresher a b =
    ltb b.last_seen a.last_seen || b.last_seen == a.last_seen && leb b.registered_at a.registered_at

abbrev pub same_place : Node → Node → Bool
same_place a b = text_eq a.role b.role && text_eq a.addr b.addr

-- The rows whose role and address came before; `seen` holds the rows before.
unfoldable pub stale_nodes : List Node → List Node → List Text
stale_nodes seen [] = []
stale_nodes seen (n ∷ rows) =
    let again = stale_nodes seen rows in
    let fresh = stale_nodes (n ∷ seen) rows in
    if any (same_place n) seen then n.id ∷ again else fresh

abbrev pub listed : List Text → Text → Bool
listed ids id = any (text_eq id) ids

abbrev pub of_node : Text → HostRow → Bool
of_node id h = text_eq h.kind (text "cluster") && text_eq h.cluster_node_id id

unfoldable pub delete_node : Registry → Text → Registry
delete_node reg id = record {
  hosts = keep (λ h. not (of_node id h)) reg.hosts;
  nodes = keep (λ n. not (has_node_id id n)) reg.nodes;
}

unfoldable pub delete_nodes : Registry → List Text → Registry
unfolding delete_node
delete_nodes reg [] = reg
delete_nodes reg (id ∷ ids) = delete_nodes (delete_node reg id) ids

unfoldable pub dedupe_nodes : Registry → Registry × ℕ
unfolding stale_nodes delete_nodes
dedupe_nodes reg =
    let stale = stale_nodes [] (sort_by fresher reg.nodes) in (delete_nodes reg stale, length stale)

abbrev pub touched_at : ℕ → Option Text → Node → Node
touched_at now none n = record n { last_seen = now }
touched_at now (some info) n = record n { last_seen = now; info_json = info }

abbrev pub touch_if : Text → ℕ → Option Text → Node → Node
touch_if id now info n = if has_node_id id n then touched_at now info n else n

-- The table after the update, and whether it changed a row.
unfoldable pub touch_node : Registry → Text → ℕ → Option Text → Registry × Bool
touch_node reg id now info =
    (with_nodes reg (map (touch_if id now info) reg.nodes), any (has_node_id id) reg.nodes)

unfoldable pub get_node : Registry → Text → Option Node
get_node reg id = find (has_node_id id) reg.nodes

abbrev pub seen_state : ℕ → Option Node → Option (Text × Bool)
seen_state now none = none
seen_state now (some n) = some (n.addr, is_online now n.last_seen)

-- The address, and whether the node counts as online.
unfoldable pub node_online_state : Registry → ℕ → Text → Option (Text × Bool)
unfolding get_node
node_online_state reg now id = seen_state now (get_node reg id)

abbrev pub by_name : Node → Node → Bool
by_name a b = text_leb a.name b.name

abbrev pub worker_rows : Registry → List Node
worker_rows reg = sort_by by_name (keep (λ n. text_eq n.role (text "worker")) reg.nodes)

unfoldable pub online_workers_in : Registry → ℕ → List (Text × Text)
online_workers_in reg now =
    map (λ n. (n.name, n.addr)) (keep (λ n. is_online now n.last_seen) (worker_rows reg))

unfoldable pub workers : Registry → ℕ → List (Text × Text × Bool)
workers reg now = map (λ n. (n.name, n.addr, is_online now n.last_seen)) (worker_rows reg)

-- The nodes by name, each with whether it is online; listing merges them first.
unfoldable pub list_cluster_nodes : Registry → ℕ → Registry × List (Node × Bool)
unfolding dedupe_nodes
list_cluster_nodes reg now =
    let merged = (dedupe_nodes reg).0 in
    (merged, map (λ n. (n, is_online now n.last_seen)) (sort_by by_name merged.nodes))
