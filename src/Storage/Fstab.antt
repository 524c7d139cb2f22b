-- ===== src/Storage/Fstab.antt =====
-- `is_mounted`, `persist_fstab` and `remove_fstab_entry` of src/storage.rs, as functions of the file's
-- text; reading and writing the file succeed.
pub mod Laws
pub mod Twice
use cangling_update.Base.{
  ℕ, suc, Bool, true, false, not, ◌&&◌, ◌||◌, List, [], ◌∷◌, ◌++◌, Option, none, some, ◌==◌,
  if◌then◌else◌, any, map, keep, get_elem?,
}
use cangling_update.Text.{Text, text, text_eq, trim, lines, unlines, split_whitespace}

abbrev pub is_some_text : Option Text → Text → Bool
is_some_text none t = false
is_some_text (some s) t = text_eq s t

-- The second field of a line of /etc/fstab or /proc/mounts is the mount point.
unfoldable pub is_entry : Text → Text → Bool
is_entry mnt line = is_some_text (get_elem? (split_whitespace line) 1) mnt

unfoldable pub is_mounted : Text → Text → Bool
is_mounted proc_mounts mnt = any (is_entry mnt) (lines proc_mounts)

unfoldable pub entry : Text → Text → Text → Text → Text
entry fstype src mnt opts =
    src ++ (b' ' ∷ (mnt ++ (b' ' ∷ (fstype ++ (b' ' ∷ (opts ++ text " 0 0"))))))

abbrev pub settle : Text → Text → Text → Text
settle mnt desired line =
    if is_entry mnt line then if text_eq (trim line) desired then line else desired else line

abbrev pub is_stale : Text → Text → Text → Bool
is_stale mnt desired line = is_entry mnt line && not (text_eq (trim line) desired)

-- The text after the call, and whether it changed.
unfoldable pub persist_fstab : Text → Text → Text → Text → Text → Text × Bool
persist_fstab existing fstype src mnt opts =
    let desired = entry fstype src mnt opts in
    let changed = any (is_stale mnt desired) (lines existing) in
    if any (is_entry mnt) (lines existing)
    then if changed
      then (unlines (map (settle mnt desired) (lines existing)), true)
      else (existing, false)
    else (
      existing ++ (text "\n# cangling-storage " ++ (mnt ++ (b'\n' ∷ (desired ++ b'\n' ∷ [])))),
      true,
    )

unfoldable pub remove_fstab_entry : Text → Text → Text × Bool
remove_fstab_entry content mnt =
    if any (is_entry mnt) (lines content)
    then (unlines (keep (λ l. not (is_entry mnt l)) (lines content)), true)
    else (content, false)
