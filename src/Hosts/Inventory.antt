-- ===== src/Hosts/Inventory.antt =====
-- `sync_inventory` of src/hosts.rs: the rows of this host and of the nodes of the cluster, and what becomes
-- of hosts that were entered by hand before; and the targets of a synchronisation.
use mathlib.Core.Option.{Option, none, some}
use cangling_update.Base.{
  ℕ, Bool, not, ◌&&◌, ◌||◌, ◌==◌, List, [], ◌∷◌, ◌++◌, ltb, leb, if◌then◌else◌, is_empty, any, keep,
  map, sort_by,
}
use cangling_update.Text.{Text, text, text_eq, text_leb, trim_matches}
use cangling_update.Cluster.Registry.{Node}
use cangling_update.Hosts.Table.{HostRow, local_host_id, has_host_id, is_bracket}

-- What is known of this host and of reading addresses: the text of `primary_ip` in a snapshot, whether a
-- text is an IP address, and the host of a socket address.
pub record Local : Type 0 where
  pub hostname : Text
  pub ip : Text
  pub node_id : Text
  pub primary_ip : Text → Option Text
  pub is_ip : Text → Bool
  pub socket_ip : Text → Option Text

-- `rsplit_once(':')`, the part before.
abbrev before_last_colon : Text → Option Text
before_last_colon [] = none
before_last_colon (c ∷ cs) = elim (before_last_colon cs) [
  | some host ↦ some (c ∷ host)
  | none ↦ if c == b':' then some [] else none
]

abbrev checked_ip : Local → Option Text → Option Text
checked_ip l none = none
checked_ip l (some ip) = if l.is_ip ip then some ip else none

abbrev or_else : Option Text → Option Text → Option Text
or_else none other = other
or_else (some a) other = some a

abbrev unbracketed : Option Text → Option Text
unbracketed none = none
unbracketed (some host) = some (trim_matches is_bracket host)

abbrev or_empty : Option Text → Text
or_empty none = []
or_empty (some t) = t

unfoldable pub cluster_host : Local → Text → Text → Text
cluster_host l addr info_json = or_empty (
    or_else (checked_ip l (l.primary_ip info_json))
      (or_else (l.socket_ip addr) (checked_ip l (unbracketed (before_last_colon addr)))))

-- INSERT … ON CONFLICT(id) DO UPDATE, where `merge old` is what the update leaves of the old row.
abbrev pub upsert_host : (HostRow → HostRow) → HostRow → List HostRow → List HostRow
upsert_host merge new [] = new ∷ []
upsert_host merge new (r ∷ rows) =
    let rest = upsert_host merge new rows in
    if has_host_id new.id r then merge r ∷ rows else r ∷ rest

abbrev pub local_row : Local → ℕ → HostRow
local_row l now = record {
  id = local_host_id;
  name = l.hostname;
  host = l.ip;
  ssh_port = 22;
  username = text "root";
  password_enc = [];
  kind = text "local";
  cluster_node_id = l.node_id;
  created_at = now;
  updated_at = now;
}

abbrev pub renewed : Local → ℕ → HostRow → HostRow
renewed l now r = record r {
  name = l.hostname;
  host = l.ip;
  cluster_node_id = l.node_id;
  updated_at = now;
}

-- Entered by hand, for this address and the usual port.
abbrev pub is_manual_at : Text → HostRow → Bool
is_manual_at host r = text_eq r.kind (text "manual") && (text_eq r.host host && r.ssh_port == 22)

-- Those with a password first, then the one written last.
abbrev pub preferred : HostRow → HostRow → Bool
preferred a b =
    not (is_empty a.password_enc) && is_empty b.password_enc
    || (is_empty a.password_enc || not (is_empty b.password_enc))
      && ((not (is_empty a.password_enc) || is_empty b.password_enc)
          && leb b.updated_at a.updated_at)

abbrev pub head_of : List HostRow → Option HostRow
head_of [] = none
head_of (r ∷ rows) = some r

abbrev pub credentials : Option HostRow → ℕ → Text × Text × ℕ
credentials none now = (text "root", [], now)
credentials (some r) now = (r.username, r.password_enc, r.created_at)

abbrev pub cluster_id : Text → Text
cluster_id node_id = text "cluster:" ++ node_id

abbrev pub cluster_row : Node → Text → ℕ → Text × Text × ℕ → HostRow
cluster_row n host now (username, password_enc, created_at) = record {
  id = cluster_id n.id;
  name = n.name;
  host = host;
  ssh_port = 22;
  username = username;
  password_enc = password_enc;
  kind = text "cluster";
  cluster_node_id = n.id;
  created_at = created_at;
  updated_at = now;
}

-- The credentials that were there stay.
abbrev pub merged : HostRow → HostRow → HostRow
merged new old = record old {
  name = new.name;
  host = new.host;
  username = if is_empty old.username then new.username else old.username;
  password_enc = if is_empty old.password_enc then new.password_enc else old.password_enc;
  cluster_node_id = new.cluster_node_id;
  updated_at = new.updated_at;
}

-- One node of the cluster that is not this host and has an address.
unfoldable pub merge_node : List HostRow → ℕ → Node → Text → List HostRow
merge_node rows now n host =
    let manual = head_of (sort_by preferred (keep (is_manual_at host) rows)) in
    let new = cluster_row n host now (credentials manual now) in
    keep (λ r. not (is_manual_at host r)) (upsert_host (merged new) new rows)

unfoldable pub sync_node : Local → List HostRow → ℕ → Node → List HostRow
unfolding merge_node cluster_host
sync_node l rows now n =
    if text_eq n.id l.node_id
    then rows
    else if is_empty (cluster_host l n.addr n.info_json)
    then rows
    else merge_node rows now n (cluster_host l n.addr n.info_json)

abbrev pub sync_nodes : Local → List HostRow → ℕ → List Node → List HostRow
sync_nodes l rows now [] = rows
sync_nodes l rows now (n ∷ ns) = sync_nodes l (sync_node l rows now n) now ns

unfoldable pub sync_inventory : Local → List HostRow → List Node → ℕ → List HostRow
unfolding sync_node
sync_inventory l rows nodes now =
    sync_nodes l (upsert_host (renewed l now) (local_row l now) rows) now
      (sort_by (λ a b. text_leb a.name b.name) nodes)

pub record SshSyncTarget : Type 0 where
  pub name : Text
  pub host : Text
  pub port : ℕ
  pub username : Text
  pub local : Bool

abbrev clamped : ℕ → ℕ
clamped port = if ltb port 1 then 1 else if ltb 65535 port then 65535 else port

abbrev target_of : HostRow → SshSyncTarget
target_of r = record {
  name = r.name;
  host = r.host;
  port = clamped r.ssh_port;
  username = r.username;
  local = text_eq r.kind (text "local");
}

abbrev pub same_login : SshSyncTarget → SshSyncTarget → Bool
same_login a b = text_eq a.host b.host && (a.port == b.port && text_eq a.username b.username)

-- The set of keys seen holds those of all targets so far.
abbrev pub collect : List SshSyncTarget → List SshSyncTarget → List SshSyncTarget
collect seen [] = []
collect seen (t ∷ ts) =
    let skipped = collect seen ts in
    let taken = collect (t ∷ seen) ts in
    if not t.local && any (same_login t) seen then skipped else t ∷ taken

abbrev by_kind : HostRow → HostRow → Bool
by_kind a b =
    let first = text_eq a.kind (text "cluster") in
    let second = text_eq b.kind (text "cluster") in
    first && not second || (first || not second) && text_leb a.name b.name

unfoldable pub ssh_sync_targets : Local → List HostRow → List Node → ℕ → List SshSyncTarget
unfolding sync_inventory
ssh_sync_targets l rows nodes now = collect [] (
    map target_of
      (sort_by by_kind (keep (λ r. not (is_empty r.host)) (sync_inventory l rows nodes now))))
