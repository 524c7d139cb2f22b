-- ===== src/Cluster/Requests.antt =====
-- The handlers `register`, `heartbeat` and `auth_sync`, and the guard on all of them. A host snapshot is
-- its processor and its JSON text; `arch_of` reads the processor back from a stored text.
use cangling_update.Base.{
  ℕ, Bool, true, false, [], Option, none, some, if◌then◌else◌, is_empty, get_or,
}
use cangling_update.Text.{Text, text, text_eq, trim}
use cangling_update.Errors.{bad_request, unauthorized, Result, ok, err, ◌>>=◌, ◌>>◌, refuse_if}
use cangling_update.Auth.Tables.{
  Db, UserRow, get_user_by_name, update_password_hash, delete_sessions_for_user, insert_user,
}
use cangling_update.Binaries.Offer.{Store, UpgradeOffer, offer_for}
use cangling_update.Cluster.Registry.{
  Registry, heartbeat_interval_secs, upsert_node, dedupe_nodes, touch_node, get_node,
  node_online_state,
}

abbrev pub carries : Option Text → Text → Bool
carries none expected = false
carries (some provided) expected = text_eq provided expected

-- `require_cluster_token` in front of a handler: `handler` is what it answers with.
unfoldable pub require_cluster_token {ℓ} :
    {A : Type ℓ} → Option Text → Option Text → Result A → Result A
require_cluster_token none provided handler = err (unauthorized (text "集群未启用或未设置令牌"))
require_cluster_token (some expected) provided handler =
    if carries provided expected then handler else err (unauthorized (text "集群令牌无效"))

pub record HostSnapshot : Type 0 where
  pub arch : Text
  pub json : Text

pub record RegisterRequest : Type 0 where
  pub id : Text
  pub name : Text
  pub addr : Text
  pub version : Text
  pub arch : Text
  pub host : HostSnapshot

pub record HeartbeatRequest : Type 0 where
  pub id : Text
  pub version : Text
  pub arch : Text
  pub host : Option HostSnapshot

abbrev pub host_arch : Option HostSnapshot → Text
host_arch none = []
host_arch (some h) = trim h.arch

unfoldable pub worker_arch : Text → Option HostSnapshot → Text
worker_arch explicit host = if is_empty (trim explicit) then host_arch host else trim explicit

-- What the program was built as, and what it reads elsewhere.
pub record Master : Type 0 where
  pub version : Text
  pub store : Store
  pub arch_of : Text → Option Text

-- The answer, and the address that the accounts are sent to afterwards.
pub record RegisterResponse : Type 0 where
  pub heartbeat_interval : ℕ
  pub master_version : Text
  pub upgrade : Option UpgradeOffer
  pub sync_to : Text

pub record HeartbeatResponse : Type 0 where
  pub known : Bool
  pub upgrade : Option UpgradeOffer
  pub sync_to : Option Text

abbrev pub reconnected : Option (Text × Bool) → Bool → Option Text
reconnected (some (addr, false)) true = some addr
reconnected before known = none

abbrev pub json_of : Option HostSnapshot → Option Text
json_of none = none
json_of (some h) = some h.json

module _ (master : Master) where
  unfoldable pub register : Registry → ℕ → RegisterRequest → Registry × Result RegisterResponse
  register reg now body =
      if is_empty (trim body.id) then (reg, err (bad_request (text "节点 id 不能为空"))) else (
        (dedupe_nodes (
            upsert_node reg body.id body.name body.addr body.version (text "worker") body.host.json
              now)).0,
        ok (record {
          heartbeat_interval = heartbeat_interval_secs;
          master_version = master.version;
          upgrade =
              offer_for master.version master.store body.version
                (worker_arch body.arch (some body.host));
          sync_to = body.addr;
        }),
      )

  unfoldable pub node_version_and_arch : Registry → Text → Text × Text
  node_version_and_arch reg id = elim (get_node reg id) [
    | none ↦ ([], [])
    | some n ↦ (n.version, get_or (master.arch_of n.info_json) [])
  ]

  abbrev beat_version : HeartbeatRequest → Text × Text → Text
  beat_version body stored = if is_empty (trim body.version) then stored.0 else body.version

  abbrev beat_arch : HeartbeatRequest → Text × Text → Text
  beat_arch body stored =
      let from_req = worker_arch body.arch body.host in
      if is_empty from_req then stored.1 else from_req

  unfoldable pub heartbeat : Registry → ℕ → HeartbeatRequest → Registry × HeartbeatResponse
  unfolding node_version_and_arch
  heartbeat reg now body =
      let before = node_online_state reg now body.id in
      let stored = node_version_and_arch reg body.id in
      let (after, known) = touch_node reg body.id now (json_of body.host) in
      (
        after,
        record {
          known = known;
          upgrade =
              if known
              then offer_for master.version master.store (beat_version body stored)
                  (beat_arch body stored)
              else none;
          sync_to = reconnected before known;
        },
      )

-- The account is there, or is not yet.
unfoldable pub sync_account : Text → Db → Text → Text → Text → Option UserRow → Result (Db × Bool)
sync_account conflict_text db username password_hash fresh_id (some user) =
    ok (delete_sessions_for_user (update_password_hash db user.id password_hash).0 user.id, false)
sync_account conflict_text db username password_hash fresh_id none = do
  stored ←
      insert_user conflict_text db
        (record { id = fresh_id; username = username; password_hash = password_hash })
  ok (stored, true)

-- A worker takes over an account of the master; `fresh_id` is the new identifier, and the answer tells
-- whether the account is new.
unfoldable pub auth_sync : Text → Db → Text → Text → Text → Result (Db × Bool)
unfolding sync_account
auth_sync conflict_text db raw password_hash fresh_id = do
  let username = trim raw
  refuse_if (is_empty username) (bad_request (text "username 不能为空"))
  refuse_if (is_empty password_hash) (bad_request (text "password_hash 不能为空"))
  sync_account conflict_text db username password_hash fresh_id (get_user_by_name db username)
