-- ===== src/Storage/Normalize/Accepted.antt =====
-- What `normalize` of src/storage.rs promises of a form that it accepts.
use cangling_update.Base.{true, false, ◌||◌, [], Option, none, some, is_empty, ◌≡◌, ◌⊎◌}
use cangling_update.Text.{Text, text, trim, has}
use cangling_update.Errors.{ok}
use cangling_update.Storage.Validate.{
  is_absolute, validate_nfs_export_options, validate_nfs_export_path, validate_storage_username,
  validate_samba_options,
}
use cangling_update.Storage.Normalize.{Storage, StorageBody, bad_protocol}

-- An external server's share.
pub record IsExternal (s : Storage) : Type 0 where
  pub protocol_known : bad_protocol s ≡ false
  pub has_server : is_empty s.server ≡ false
  pub has_share : is_empty s.share ≡ false
  pub has_target : is_empty s.target_dir ≡ false
  pub no_path : s.path ≡ []
  pub here : s.host_id ≡ []

-- What Samba and NFS each need of a directory that a host shares.
abbrev pub IsCifsShare : Storage → Type 0
IsCifsShare s =
    (is_empty s.share ≡ false)
    × (is_empty s.username ≡ false)
    × (is_empty s.password ≡ false)
    × (validate_storage_username s.username ≡ ok tt)
    × (validate_samba_options s.options ≡ ok tt)

abbrev pub IsNfsShare : Storage → Type 0
IsNfsShare s =
    (s.share ≡ s.path)
    × (s.username ≡ [])
    × (s.password ≡ [])
    × (validate_nfs_export_path s.path ≡ ok tt)
    × (validate_nfs_export_options s.options ≡ ok tt)

pub record IsHostShare (s : Storage) : Type 0 where
  pub no_server : s.server ≡ []
  pub path_absolute : is_absolute s.path ≡ true
  pub target_absolute : is_absolute s.target_dir ≡ true
  pub shared :
      ((s.protocol ≡ text "cifs") × IsCifsShare s) ⊎ ((s.protocol ≡ text "nfs") × IsNfsShare s)

-- What a form says of the account: an empty password field keeps the password that is stored.
abbrev pub PasswordFrom : Option Storage → Text → Text → Type 0
PasswordFrom none typed p = p ≡ typed
PasswordFrom (some e) typed p =
    (is_empty typed ≡ true → p ≡ e.password) × (is_empty typed ≡ false → p ≡ typed)

abbrev pub Account : StorageBody → Option Storage → Storage → Type 0
Account body existing s =
    (s.username ≡ trim body.username) × PasswordFrom existing body.password s.password

abbrev pub OneLine : Text → Type 0
OneLine p = (has b'\n' p || has b'\r' p) ≡ false

-- The columns that are as the form says whatever the kind.
abbrev pub AsTyped : StorageBody → Storage → Type 0
AsTyped body s =
    (s.name ≡ trim body.name)
    × (s.kind ≡ trim body.kind)
    × (s.protocol ≡ trim body.protocol)
    × (s.target_dir ≡ trim body.target_dir)
    × (s.options ≡ trim body.options)

-- A new storage has the new identifier and is `defined`; an edited one keeps these columns.
abbrev pub FromBefore : Option Storage → Text → Text → Storage → Type 0
FromBefore none fresh_id now s =
    (s.id ≡ fresh_id) × (s.status ≡ text "defined") × (s.created_at ≡ now)
FromBefore (some e) fresh_id now s =
    (s.id ≡ e.id) × (s.status ≡ e.status) × (s.created_at ≡ e.created_at)
