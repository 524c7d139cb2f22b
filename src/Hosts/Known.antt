-- ===== src/Hosts/Known.antt =====
-- What the inventory knows of the nodes of the cluster.
use cangling_update.Base.{
  ℕ, Bool, true, false, not, List, [], ◌∷◌, keep, ◌≡◌, ◌⊎◌, refl, ap, ◌∙◌, subst, arith, Bool-cases,
  inl, inr, All, All-mono, All-keep, all-All, all-keep, Mem, here, there, All-Mem, Mem-All,
  Mem-keep, sort_by,
}
use cangling_update.Text.{Text, text, text_eq, text_eq_iff}
use cangling_update.Cluster.Registry.{Node}
use cangling_update.Hosts.Table.{HostRow, local_host_id, has_host_id}
use cangling_update.Hosts.Inventory.{
  upsert_host, is_manual_at, preferred, head_of, credentials, cluster_id, cluster_row, merged,
  merge_node,
}

abbrev pub is_manual : HostRow → Bool
is_manual r = text_eq r.kind (text "manual")

-- A host entered by hand has neither the identifier of this host nor that of a node.
abbrev pub Named : HostRow → Type 0
Named r =
    is_manual r ≡ true
    → (text_eq r.id local_host_id ≡ false)
      × ((node_id : Text) → text_eq r.id (cluster_id node_id) ≡ false)

pub upsert_host-All :
    (P : HostRow → Type 0) (merge : HostRow → HostRow) (new : HostRow) (rows : List HostRow)
    → P new
    → ((r : HostRow) → has_host_id new.id r ≡ true → P r → P (merge r))
    → All P rows
    → All P (upsert_host merge new rows)
upsert_host-All P merge new [] n f a = (n, tt)
upsert_host-All P merge new (r ∷ rows) n f a = elim (Bool-cases (has_host_id new.id r)) [
  | inl e ↦ rw e (f r e a.0, a.1)
  | inr e ↦ rw e (a.0, upsert_host-All P merge new rows n f a.1)
]

upsert_host-there :
    (merge : HostRow → HostRow) (new : HostRow) (rows : List HostRow) {r : HostRow}
    → has_host_id new.id r ≡ false
    → Mem r rows
    → Mem r (upsert_host merge new rows)
upsert_host-there merge new [] h m = elim m [ ]
upsert_host-there merge new (x ∷ rows) h m = elim (Bool-cases (has_host_id new.id x)) [
  | inl e ↦ elim m [
    | here same ↦ absurd (cc (e, subst (λ y. has_host_id new.id y ≡ false) same h))
    | there later ↦ rw e (there later)
  ]
  | inr e ↦ elim m [
    | here same ↦ rw e (here same)
    | there later ↦ rw e (there (upsert_host-there merge new rows h later))
  ]
]

-- The row that an upsert leaves.
upsert_host-new :
    (merge : HostRow → HostRow) (new : HostRow) (rows : List HostRow)
    → Mem new (upsert_host merge new rows)
      ⊎ ((r : HostRow) × Mem r rows
          × (has_host_id new.id r ≡ true)
          × Mem (merge r) (upsert_host merge new rows))
upsert_host-new merge new [] = inl (here refl)
upsert_host-new merge new (x ∷ rows) = elim (Bool-cases (has_host_id new.id x)) [
  | inl e ↦ inr (x, here refl, e, rw e (here refl))
  | inr e ↦ elim (upsert_host-new merge new rows) [
    | inl m ↦ inl (rw e (there m))
    | inr (r, m, k, w) ↦ inr (r, there m, k, rw e (there w))
  ]
]

-- A node has a row with its address, and no host is entered by hand for that address and the usual port.
pub record Known (rows : List HostRow) (node_id host : Text) : Type 0 where
  pub listed :
      (r : HostRow) × Mem r rows
      × (r.id ≡ cluster_id node_id)
      × (r.host ≡ host)
      × (is_manual r ≡ false)
  pub merged_in : All (λ r. is_manual_at host r ≡ false) rows

cluster_id-eq : (a b : Text) → text_eq (cluster_id a) (cluster_id b) ≡ text_eq a b
unfolding text
cluster_id-eq a b = refl

not_manual :
    (node_id : Text) (r : HostRow)
    → Named r
    → has_host_id (cluster_id node_id) r ≡ true
    → is_manual r ≡ false
not_manual node_id r named e = elim (Bool-cases (is_manual r)) [
  | inr m ↦ m
  | inl m ↦ absurd (cc (e, (named m).1 node_id))
]

module _ (now : ℕ) (m : Node) (host : Text) where
  -- The rows before those entered by hand are taken away.
  abbrev new_row : List HostRow → HostRow
  new_row rows =
      cluster_row m host now
        (credentials (head_of (sort_by preferred (keep (is_manual_at host) rows))) now)

  abbrev upserted : List HostRow → List HostRow
  upserted rows = upsert_host (merged (new_row rows)) (new_row rows) rows

  pub merge_node-Named :
      (rows : List HostRow) → All Named rows → All Named (merge_node rows now m host)
  unfolding merge_node text
  merge_node-Named rows a =
      All-keep Named (λ r. not (is_manual_at host r)) _
        (upsert_host-All Named _ _ rows (λ h. absurd (cc h)) (λ r e named. named) a)

  still_merged :
      (rows : List HostRow) (other : Text)
      → All Named rows
      → All (λ r. is_manual_at other r ≡ false) rows
      → All (λ r. is_manual_at other r ≡ false) (upserted rows)
  unfolding text
  still_merged rows other a k =
      All-mono (λ r. Named r × (is_manual_at other r ≡ false)) _ (upserted rows) (λ r h. h.1)
        (upsert_host-All (λ r. Named r × (is_manual_at other r ≡ false)) _ _ rows
          ((λ h. absurd (cc h)), refl) (λ r e h. (h.0, rw (not_manual m.id r h.0 e) refl))
          (Mem-All (λ r. Named r × (is_manual_at other r ≡ false)) rows
            (λ r inside. (
              All-Mem Named rows a inside,
              All-Mem (λ s. is_manual_at other s ≡ false) rows k inside,
            ))))

  pub merge_node-keeps :
      (rows : List HostRow) (node_id other : Text)
      → All Named rows
      → text_eq node_id m.id ≡ false
      → Known rows node_id other
      → Known (merge_node rows now m host) node_id other
  unfolding merge_node
  merge_node-keeps rows node_id other a apart k = record {
    listed =
        let (r, inside, i, h, manual) = k.listed in
        (
          r,
          Mem-keep (λ s. not (is_manual_at host s)) _ (rw manual refl)
              (upsert_host-there _ _ rows
                (ap (λ d. text_eq d (cluster_id m.id)) i ∙ cluster_id-eq node_id m.id ∙ apart)
                inside),
          i,
          h,
          manual,
        );
    merged_in =
        All-keep (λ r. is_manual_at other r ≡ false) (λ r. not (is_manual_at host r)) _
          (still_merged rows other a k.merged_in);
  }

  pub merge_node-Known :
      (rows : List HostRow) → All Named rows → Known (merge_node rows now m host) m.id host
  unfolding merge_node text
  merge_node-Known rows a = record {
    listed = elim (upsert_host-new _ _ rows) [
      | inl inside ↦ (
        _,
        Mem-keep (λ r. not (is_manual_at host r)) (upserted rows) refl inside,
        refl,
        refl,
        refl,
      )
      | inr (r, old, e, inside) ↦
          let manual = not_manual m.id r (All-Mem Named rows a old) e in
          (
            merged (new_row rows) r,
            Mem-keep (λ s. not (is_manual_at host s)) (upserted rows) (rw manual refl) inside,
            (text_eq_iff r.id (cluster_id m.id)).0 e,
            refl,
            manual,
          )
    ];
    merged_in =
        All-mono (λ r. not (is_manual_at host r) ≡ true) _
          (keep (λ r. not (is_manual_at host r)) (upserted rows)) (λ r h. ground (arith, h))
          (all-All (λ r. not (is_manual_at host r))
            (keep (λ r. not (is_manual_at host r)) (upserted rows))
            (all-keep (λ r. not (is_manual_at host r)) (upserted rows)));
  }
