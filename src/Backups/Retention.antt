-- ===== src/Backups/Retention.antt =====
-- The backups of a project on the disk, and how the old ones among the scheduled are removed:
-- `list` and `apply_retention` of src/dbbackup.rs. A directory that cannot be removed is an error, as one
-- that is not there.
use mathlib.Core.Option.{Option, none, some}
use cangling_update.Base.{
  ℕ, zero, suc, Bool, false, not, ◌&&◌, ◌==◌, List, [], ◌∷◌, ltb, if◌then◌else◌, any, keep, sort_by,
}
use cangling_update.Text.{Text, text, text_eq, text_leb}
use cangling_update.Errors.{Result, ok, err, bad_request, internal, refuse_if, ◌>>◌}
use cangling_update.Sql.Quote.{is_safe_sql_name}

pub record BackupManifest : Type 0 where
  pub id : Text
  pub project_id : Text
  pub service : Text
  pub database : Text
  pub kind : Text
  pub created_at : Text
  pub dump_bytes : ℕ
  pub globals_bytes : ℕ
  pub valid : Bool

-- A directory below that of the project: its manifest, if that can be read, and the sizes of its files.
pub record Directory : Type 0 where
  pub name : Text
  pub manifest : Option BackupManifest
  pub dump : Option ℕ
  pub globals : Option ℕ

unfoldable pub safe_component : Text → Result (Unit {0})
safe_component value = refuse_if (not (is_safe_sql_name value)) (bad_request (text "无效的数据库备份编号"))

abbrev has_size : Option ℕ → ℕ → Bool
has_size none n = false
has_size (some m) n = m == n

abbrev pub checked : Directory → BackupManifest → BackupManifest
checked d m = record m {
  valid =
      ltb 0 m.dump_bytes
      && ltb 0 m.globals_bytes
      && has_size d.dump m.dump_bytes
      && has_size d.globals m.globals_bytes;
}

abbrev pub readable : List Directory → List BackupManifest
readable [] = []
readable (d ∷ ds) =
    let rest = readable ds in elim d.manifest [ none ↦ rest | some m ↦ checked d m ∷ rest ]

abbrev pub newest_first : BackupManifest → BackupManifest → Bool
newest_first a b = text_leb b.created_at a.created_at

unfoldable pub list : List Directory → Text → Result (List BackupManifest)
unfolding safe_component sort_by
list dirs project_id = safe_component project_id >> ok (sort_by newest_first (readable dirs))

abbrev pub is_scheduled : Text → Text → BackupManifest → Bool
is_scheduled service database m =
    text_eq m.kind (text "scheduled") && text_eq m.service service && text_eq m.database database

abbrev pub skip {ℓ} : {A : Type ℓ} → ℕ → List A → List A
skip zero xs = xs
skip (suc n) [] = []
skip (suc n) (x ∷ xs) = skip n xs

abbrev pub is_named : Text → Directory → Bool
is_named name d = text_eq d.name name

-- `remove_dir_all` of one backup.
unfoldable pub remove_backup : List Directory → Text → Text → Result (List Directory)
unfolding safe_component
remove_backup dirs project_id id =
    safe_component project_id
    >> (safe_component id
        >> (if any (is_named id) dirs
            then ok (keep (λ d. not (is_named id d)) dirs)
            else err (internal (text "No such file or directory"))))

-- The first error ends the loop; what was removed before stays removed.
abbrev pub remove_all :
    List Directory → Text → List BackupManifest → List Directory × Result (Unit {0})
remove_all dirs project_id [] = (dirs, ok tt)
remove_all dirs project_id (old ∷ olds) = elim (remove_backup dirs project_id old.id) [
  | err e ↦ (dirs, err e)
  | ok rest ↦ remove_all rest project_id olds
]

unfoldable pub apply_retention :
    List Directory → Text → Text → Text → ℕ → List Directory × Result (Unit {0})
unfolding list remove_backup
apply_retention dirs project_id service database retain = elim (list dirs project_id) [
  | err e ↦ (dirs, err e)
  | ok backups ↦
      remove_all dirs project_id (skip retain (keep (is_scheduled service database) backups))
]
