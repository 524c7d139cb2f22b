-- ===== src/Storage/Normalize/Sound.antt =====
-- What a storage that is accepted looks like, kind by kind, and what an edit keeps.
use cangling_update.Base.{
  true, false, not, ◌&&◌, ◌||◌, [], Option, none, some, if◌then◌else◌, is_empty, ◌≡◌, refl, arith,
  Bool-cases, inl, inr, ◌⊎◌, subst, sym, ◌∙◌,
}
use cangling_update.Text.{Text, text, text_eq, text_eq_iff, trim, has}
use cangling_update.Errors.{Result, ok, >>=-eq-ok, refuse_if-then, check-then, ok-subst}
use cangling_update.Storage.Validate.{
  is_absolute, validate_nfs_export_options, validate_nfs_export_path, validate_storage_username,
  validate_samba_options,
}
use cangling_update.Storage.Normalize.{
  Storage, StorageBody, kind_external, kind_host_share, draft, check_external, check_cifs_share,
  check_nfs_share, name_host, check_host_share, normalize, bad_protocol, password_of,
}
use cangling_update.Storage.Normalize.Accepted.{
  IsExternal, IsCifsShare, IsHostShare, PasswordFrom, Account, OneLine, AsTyped, FromBefore,
}

-- The columns that only `draft` decides.
abbrev Kept : Storage → Storage → Type 0
Kept d s =
    (s.id ≡ d.id)
    × (s.name ≡ d.name)
    × (s.kind ≡ d.kind)
    × (s.protocol ≡ d.protocol)
    × (s.target_dir ≡ d.target_dir)
    × (s.options ≡ d.options)
    × (s.status ≡ d.status)
    × (s.created_at ≡ d.created_at)

abbrev SameAccount : Storage → Storage → Type 0
SameAccount d s = (s.share ≡ d.share) × (s.username ≡ d.username) × (s.password ≡ d.password)

abbrev Shares : Storage → Storage → Type 0
Shares d s =
    IsHostShare s
    × ((s.path ≡ d.path) × (s.host_id ≡ d.host_id))
    × (s.protocol ≡ text "cifs" → SameAccount d s)
    × Kept d s

check_external-IsExternal :
    (d : Storage) {s : Storage}
    → check_external d ≡ ok s
    → IsExternal s × (s.server ≡ d.server) × SameAccount d s × Kept d s
unfolding check_external
check_external-IsExternal d h =
    let (known, h1) = refuse_if-then (bad_protocol d) _ _ h in
    let (there, h2) = refuse_if-then (is_empty d.server || is_empty d.share) _ _ h1 in
    let (target, last) = refuse_if-then (is_empty d.target_dir) _ _ h2 in
    ok-subst (λ s. IsExternal s × (s.server ≡ d.server) × SameAccount d s × Kept d s) last
      (
        record {
          protocol_known = known;
          has_server = ground arith;
          has_share = ground arith;
          has_target = target;
          no_path = refl;
          here = refl;
        },
        refl,
        (refl, refl, refl),
        (refl, refl, refl, refl, refl, refl, refl, refl),
      )

check_cifs_share-IsCifsShare :
    (d : Storage) {s : Storage} → check_cifs_share d ≡ ok s → IsCifsShare d × (s ≡ d)
unfolding check_cifs_share
check_cifs_share-IsCifsShare d h =
    let (share, h1) = refuse_if-then (is_empty d.share) _ _ h in
    let (given, h2) = refuse_if-then (is_empty d.username || is_empty d.password) _ _ h1 in
    let (user, h3) = check-then (validate_storage_username d.username) _ h2 in
    let (options, last) = check-then (validate_samba_options d.options) _ h3 in
    ((share, ground arith, ground arith, user, options), ground arith)

check_nfs_share-IsNfsShare :
    (d : Storage) {s : Storage}
    → check_nfs_share d ≡ ok s
    → (validate_nfs_export_path d.path ≡ ok tt)
      × (validate_nfs_export_options d.options ≡ ok tt)
      × (s ≡ record d { share = d.path; username = []; password = [] })
unfolding check_nfs_share
check_nfs_share-IsNfsShare d h =
    let (path, h1) = check-then (validate_nfs_export_path d.path) _ h in
    let (options, last) = check-then (validate_nfs_export_options d.options) _ h1 in
    (path, options, ground arith)

name_host-Shares :
    (node_name : Text → Option Text) (d s : Storage) → Shares d s → Shares d (name_host node_name s)
unfolding name_host
name_host-Shares node_name d s (i, same, account, k) = (
  record {
    no_server = i.no_server;
    path_absolute = i.path_absolute;
    target_absolute = i.target_absolute;
    shared = i.shared;
  },
  same,
  account,
  k,
)

nfs-protocol :
    (s : Storage)
    → bad_protocol s ≡ false
    → text_eq s.protocol (text "cifs") ≡ false
    → s.protocol ≡ text "nfs"
nfs-protocol s h k = (text_eq_iff s.protocol (text "nfs")).0 (ground arith)

-- The branch on the protocol.
abbrev checked : Storage → Result Storage
checked s = if text_eq s.protocol (text "cifs") then check_cifs_share s else check_nfs_share s

checked-Shares :
    (d : Storage) {s : Storage}
    → bad_protocol d ≡ false
    → d.server ≡ []
    → is_absolute d.path ≡ true
    → is_absolute d.target_dir ≡ true
    → checked d ≡ ok s
    → Shares d s
checked-Shares d {s} known server path target h =
    elim (Bool-cases (text_eq d.protocol (text "cifs"))) [
      | inl cifs ↦
          let (share, same) = check_cifs_share-IsCifsShare d (rw cifs at h) in
          subst (Shares d) (sym same) (
            record {
              no_server = server;
              path_absolute = path;
              target_absolute = target;
              shared = inl ((text_eq_iff d.protocol (text "cifs")).0 cifs, share);
            },
            (refl, refl),
            λ e. (refl, refl, refl),
            (refl, refl, refl, refl, refl, refl, refl, refl),
          )
      | inr nfs ↦
          let (valid, options, same) = check_nfs_share-IsNfsShare d (rw nfs at h) in
          subst (Shares d) (sym same) (
            record {
              no_server = server;
              path_absolute = path;
              target_absolute = target;
              shared = inr (nfs-protocol d known nfs, (refl, refl, refl, valid, options));
            },
            (refl, refl),
            λ e. absurd (cc ((text_eq_iff d.protocol (text "cifs")).1 e, nfs)),
            (refl, refl, refl, refl, refl, refl, refl, refl),
          )
    ]

check_host_share-Shares :
    (node_name : Text → Option Text) (d : Storage) {s : Storage}
    → check_host_share node_name d ≡ ok s
    → Shares d s
unfolding check_host_share
check_host_share-Shares node_name d h =
    let e = record d { server = [] } in
    let (known, h1) = refuse_if-then (bad_protocol d) _ _ h in
    let (some_path, h2) = refuse_if-then (is_empty d.path) _ _ h1 in
    let (path, h3) = refuse_if-then (not (is_absolute d.path)) _ _ h2 in
    let (some_target, h4) = refuse_if-then (is_empty d.target_dir) _ _ h3 in
    let (target, h5) = refuse_if-then (not (is_absolute d.target_dir)) _ _ h4 in
    let (t, passed, last) = >>=-eq-ok (checked e) _ h5 in
    ok-subst (Shares d) last (
      name_host-Shares node_name d t
        (checked-Shares e known refl (ground arith) (ground arith) passed))

password_of-PasswordFrom :
    (existing : Option Storage) (typed : Text)
    → PasswordFrom existing typed (password_of existing typed)
password_of-PasswordFrom none typed = refl
password_of-PasswordFrom (some e) typed = (λ h. rw h refl, λ h. rw h refl)

account :
    (body : StorageBody) (existing : Option Storage) (fresh_id now : Text) (s : Storage)
    → s.username ≡ (draft body existing fresh_id now).username
    → s.password ≡ (draft body existing fresh_id now).password
    → Account body existing s
account body existing fresh_id now s u p = (
  u,
  subst (PasswordFrom existing body.password) (sym p)
      (password_of-PasswordFrom existing body.password),
)

from_before :
    (body : StorageBody) (existing : Option Storage) (fresh_id now : Text) (s : Storage)
    → Kept (draft body existing fresh_id now) s
    → FromBefore existing fresh_id now s
from_before body none fresh_id now s (i, n, k, p, t, o, status, created) = (i, status, created)
from_before body (some e) fresh_id now s (i, n, k, p, t, o, status, created) = (i, status, created)

share-OneLine : (d s : Storage) → OneLine d.password → Shares d s → OneLine s.password
share-OneLine d s one_line (i, same, account, k) = elim i.shared [
  | inl (cifs, share) ↦ let (x, y, p) = account cifs in subst OneLine (sym p) one_line
  | inr (nfs, (x, y, p, v, o)) ↦ subst OneLine (sym p) refl
]

-- What a storage holds that a form was accepted for: a name, and a password of one line. An external one
-- has a known protocol, the server, the share and the account of the form and a mount point, and no
-- directory of this host. A shared directory has the path and the host of the form, two absolute paths and
-- no server; with CIFS the share name and a valid account with a password as in the form, with NFS a path
-- and options fit for /etc/exports and no account. Where an account is kept, its password is the one
-- that was typed, or at an edit with an empty field the stored one. Name, kind, protocol, mount point and
-- options are those of the form; an edit keeps the identifier, the state and the time of creation.
pub normalize_sound :
    (node_name : Text → Option Text) (body : StorageBody) (existing : Option Storage)
    (fresh_id now : Text) {s : Storage}
    → normalize node_name body existing fresh_id now ≡ ok s
    → (is_empty s.name ≡ false)
      × OneLine s.password
      × (((s.kind ≡ kind_external)
            × IsExternal s
            × (s.server ≡ trim body.server)
            × (s.share ≡ trim body.share)
            × Account body existing s)
          ⊎ ((s.kind ≡ kind_host_share)
              × IsHostShare s
              × (s.path ≡ trim body.path)
              × (s.host_id ≡ trim body.host_id)
              × (s.protocol ≡ text "cifs" → (s.share ≡ trim body.share) × Account body existing s)))
      × AsTyped body s
      × FromBefore existing fresh_id now s
unfolding normalize
normalize_sound node_name body existing fresh_id now {s} h =
    let d = draft body existing fresh_id now in
    let (named, h1) = refuse_if-then (is_empty d.name) _ _ h in
    let (kind, h2) =
      refuse_if-then (not (text_eq d.kind kind_external) && not (text_eq d.kind kind_host_share)) _
        _ h1 in
    let (one_line, h3) = refuse_if-then (has b'\n' d.password || has b'\r' d.password) _ _ h2 in
    elim (Bool-cases (text_eq d.kind kind_external)) [
      | inl external ↦
          let (i, server, same, k) = check_external-IsExternal d (rw external at h3) in
          let (share, user, password) = same in
          let (id, name, is_kind, protocol, target, options, status, created) = k in
          (
            rw name named,
            subst OneLine (sym password) one_line,
            inl (
              is_kind ∙ (text_eq_iff d.kind kind_external).0 external,
              i,
              server,
              share,
              account body existing fresh_id now s user password,
            ),
            (name, is_kind, protocol, target, options),
            from_before body existing fresh_id now s k,
          )
      | inr other ↦
          let all = check_host_share-Shares node_name d (rw other at h3) in
          let (i, same, cifs, k) = all in
          let (id, name, is_kind, protocol, target, options, status, created) = k in
          (
            rw name named,
            share-OneLine d s one_line all,
            inr (
              is_kind ∙ (text_eq_iff d.kind kind_host_share).0 (ground arith),
              i,
              same.0,
              same.1,
              λ e.
                  let (share, user, password) = cifs e in
                  (share, account body existing fresh_id now s user password),
            ),
            (name, is_kind, protocol, target, options),
            from_before body existing fresh_id now s k,
          )
    ]
