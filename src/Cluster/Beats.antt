-- ===== src/Cluster/Beats.antt =====
-- What a registration and a heartbeat are good for.
use cangling_update.Base.{
  ℕ, ◌≤◌, ◌<◌, ◌-◌, ◌/◌, Bool, true, false, ◌&&◌, List, [], ◌∷◌, Option, none, some, ltb, leb,
  if◌then◌else◌, is_empty, any, map, find, ◌≡◌, ◌⊎◌, refl, sym, ap, ◌∙◌, arith, Bool-cases, inl,
  inr, Mem, find-map, find-some,
}
use cangling_update.Text.{Text, text, text_eq, text_eq_iff, trim}
use cangling_update.Auth.Guard.{second}
use cangling_update.Cluster.Registry.{
  Node, Registry, offline_after_secs, is_online, has_node_id, upsert, upsert_node, touched_at,
  touch_if, touch_node, get_node, node_online_state, seen_state, same_place, with_nodes,
}
use cangling_update.Cluster.Merge.{DistinctIds, dedupe_nodes_unique}
use cangling_update.Cluster.Merge.Freshest.{dedupe_nodes_freshest}
use cangling_update.Cluster.Merge.Kept.{dedupe_nodes-Mem}
use cangling_update.Cluster.Requests.{
  Master, RegisterRequest, HeartbeatRequest, register, heartbeat, reconnected, json_of,
}
use cangling_update.Cluster.Upserts.{
  Written, upsert-Written, upsert-old, upsert-DistinctIds, touch_if-id,
}

-- The row that stands for a registration at `now`.
pub record Registered (body : RegisterRequest) (now : ℕ) (n : Node) : Type 0 where
  pub id : n.id ≡ body.id
  pub name : n.name ≡ body.name
  pub addr : n.addr ≡ body.addr
  pub version : n.version ≡ body.version
  pub role : n.role ≡ text "worker"
  pub last_seen : n.last_seen ≡ now

abbrev pub is_worker_at : Text → Node → Bool
is_worker_at addr n = text_eq n.role (text "worker") && text_eq n.addr addr

place-is_worker_at :
    (n m : Node) (addr : Text)
    → n.role ≡ text "worker"
    → n.addr ≡ addr
    → same_place n m ≡ true
    → is_worker_at addr m ≡ true
place-is_worker_at n m addr r a p =
    let role : n.role ≡ m.role = (text_eq_iff n.role m.role).0 (ground arith) in
    let place : n.addr ≡ m.addr = (text_eq_iff n.addr m.addr).0 (ground arith) in
    let worker = (text_eq_iff m.role (text "worker")).1 (sym role ∙ r) in
    let here = (text_eq_iff m.addr addr).1 (sym place ∙ a) in ground arith

is_worker_at-place :
    (k m : Node) (addr : Text)
    → is_worker_at addr k ≡ true
    → is_worker_at addr m ≡ true
    → same_place k m ≡ true
is_worker_at-place k m addr h j =
    let kr = (text_eq_iff k.role (text "worker")).0 (ground arith) in
    let ka = (text_eq_iff k.addr addr).0 (ground arith) in
    let mr = (text_eq_iff m.role (text "worker")).0 (ground arith) in
    let ma = (text_eq_iff m.addr addr).0 (ground arith) in
    let role = (text_eq_iff k.role m.role).1 (kr ∙ sym mr) in
    let place = (text_eq_iff k.addr m.addr).1 (ka ∙ sym ma) in ground arith

-- The row that the registration wrote is the one that the merge keeps.
kept_row :
    (reg : Registry) (now : ℕ) (body : RegisterRequest) (new m : Node)
    → ((k : Node) → Mem k reg.nodes → is_worker_at body.addr k ≡ true → k.last_seen < now)
    → Written new m ⊎ Mem m reg.nodes
    → is_worker_at body.addr m ≡ true
    → now ≤ m.last_seen
    → Written new m
kept_row reg now body new m older (inl w) p t = w
kept_row reg now body new m older (inr old) p t =
    absurd (let late = older m old p in omega (arith, late, t))

-- A worker that registers stands in the table as it said, heard from now, and is the only worker there
-- at its address, whatever it was called before; no other row for the address is as new, and
-- identifiers occur once.
pub register_alone :
    (master : Master) (reg : Registry) (now : ℕ) (body : RegisterRequest)
    → is_empty (trim body.id) ≡ false
    → DistinctIds reg.nodes
    → ((k : Node) → Mem k reg.nodes → is_worker_at body.addr k ≡ true → k.last_seen < now)
    → (n : Node) × Mem n (register master reg now body).0.nodes
      × Registered body now n
      × ((k : Node)
          → Mem k (register master reg now body).0.nodes
          → is_worker_at body.addr k ≡ true
          → k.id ≡ body.id)
unfolding register upsert_node
register_alone master reg now body h d older =
    let new : Node = record {
      id = body.id;
      name = body.name;
      addr = body.addr;
      version = body.version;
      role = text "worker";
      info_json = body.host.json;
      registered_at = now;
      last_seen = now;
    } in
    let mid : Registry = with_nodes reg (upsert reg.nodes new) in
    let (n, inside, (i, nm, a, v, ro, t)) = upsert-Written reg.nodes new in
    let (m, stays, place, fresh) =
      dedupe_nodes_freshest mid (upsert-DistinctIds reg.nodes new d) inside in
    let worker = place-is_worker_at n m body.addr ro a place in
    let (wi, wn, wa, wv, wr, wt) =
      kept_row reg now body new m older (upsert-old reg.nodes new (dedupe_nodes-Mem mid stays))
        worker (omega (arith, t, fresh)) in
    rw h (
      m,
      stays,
      record { id = wi; name = wn; addr = wa; version = wv; role = wr; last_seen = wt },
      λ k kept there.
          dedupe_nodes_unique mid kept stays (is_worker_at-place k m body.addr there worker) ∙ wi,
    )

untouched :
    (id : Text) (now : ℕ) (info : Option Text) (nodes : List Node)
    → any (has_node_id id) nodes ≡ false
    → map (touch_if id now info) nodes ≡ nodes
untouched id now info [] h = refl
untouched id now info (n ∷ nodes) h =
    let e : has_node_id id n ≡ false = ground arith in
    rw e (ap (λ rest. n ∷ rest) (untouched id now info nodes (ground arith)))

-- A heartbeat of a node that is not in the table changes nothing, and is answered with no upgrade, so
-- that the worker registers anew.
pub heartbeat_unknown :
    (master : Master) (reg : Registry) (now : ℕ) (body : HeartbeatRequest)
    → any (has_node_id body.id) reg.nodes ≡ false
    → heartbeat master reg now body
      ≡ (reg, record { known = false; upgrade = none; sync_to = none })
unfolding heartbeat touch_node
heartbeat_unknown master reg now body h =
    rw (h, untouched body.id now (json_of body.host) reg.nodes h)
      (ap (λ s. (reg, record { known = false; upgrade = none; sync_to = s }))
        (silent (node_online_state reg now body.id)))
  where
    silent : (before : Option (Text × Bool)) → reconnected before false ≡ none
    silent none = refl
    silent (some (addr, true)) = refl
    silent (some (addr, false)) = refl

find_present {ℓ} :
    {A : Type ℓ} (p : A → Bool) (xs : List A) {x : A} → find p xs ≡ some x → any p xs ≡ true
find_present p [] h = cc h
find_present p (x ∷ xs) h = elim (Bool-cases (p x)) [
  | inl e ↦ rw e refl
  | inr e ↦ rw e (find_present p xs (rw e at h))
]

get_node-any :
    (reg : Registry) (id : Text) {n : Node}
    → get_node reg id ≡ some n
    → any (has_node_id id) reg.nodes ≡ true
unfolding get_node
get_node-any reg id h = find_present (has_node_id id) reg.nodes h

get_node-touch :
    (reg : Registry) (id : Text) (now : ℕ) (info : Option Text) {n : Node}
    → get_node reg id ≡ some n
    → get_node (touch_node reg id now info).0 id ≡ some (touched_at now info n)
unfolding get_node touch_node
get_node-touch reg id now info {n} h =
    find-map (has_node_id id) (has_node_id id) (touch_if id now info) reg.nodes
      (λ m. ap (λ i. text_eq i id) (touch_if-id id now info m)) h
    ∙ rw (find-some (has_node_id id) reg.nodes h) refl

reconnected-known :
    (addr : Text) (online : Bool)
    → reconnected (some (addr, online)) true ≡ (if online then none else some addr)
reconnected-known addr true = refl
reconnected-known addr false = refl

is_online_after :
    (now later : ℕ)
    → now ≤ later
    → is_online later now ≡ ltb ((later - now) / second) offline_after_secs
unfolding is_online
is_online_after now later l = let e : leb now later ≡ true = ground arith in rw e refl

seen_state-touched :
    (later now : ℕ) (info : Option Text) (n : Node)
    → now ≤ later
    → seen_state later (some (touched_at now info n))
      ≡ some (n.addr, ltb ((later - now) / second) offline_after_secs)
seen_state-touched later now none n l = ap (λ b. some (n.addr, b)) (is_online_after now later l)
seen_state-touched later now (some i) n l = ap (λ b. some (n.addr, b)) (is_online_after now later l)

-- A heartbeat of a node in the table writes the time down, so that the node counts as online for the next
-- 45 seconds, and keeps its address; the accounts are sent again exactly where the node had counted as
-- offline.
pub heartbeat_known :
    (master : Master) (reg : Registry) (now : ℕ) (body : HeartbeatRequest) {n : Node}
    → get_node reg body.id ≡ some n
    → ((heartbeat master reg now body).1.known ≡ true)
      × ((heartbeat master reg now body).1.sync_to
          ≡ (if is_online now n.last_seen then none else some n.addr))
      × ((later : ℕ)
          → now ≤ later
          → node_online_state (heartbeat master reg now body).0 later body.id
            ≡ some (n.addr, ltb ((later - now) / second) offline_after_secs))
unfolding heartbeat touch_node node_online_state
heartbeat_known master reg now body {n} h =
    let known = get_node-any reg body.id h in
    (
      known,
      rw (h, known) (reconnected-known n.addr (is_online now n.last_seen)),
      λ later l.
          rw (get_node-touch reg body.id now (json_of body.host) h)
            (seen_state-touched later now (json_of body.host) n l),
    )
