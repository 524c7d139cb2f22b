-- ===== src/Binaries/Offer.antt =====
-- `find_np4_update_binary`, `stored` and `inventory` of src/binaries.rs, and `offer_for` of
-- src/cluster/self_update.rs. A file is known by what `metadata` and a read of its first 64 bytes give;
-- the directory walk is the list of its entries in the order in which `WalkDir` visits them.
pub mod Sound
use cangling_update.Base.{
  ℕ, Bool, true, false, not, ◌&&◌, ◌||◌, List, [], ◌∷◌, ◌++◌, Option, none, some, ltb, ◌==◌,
  if◌then◌else◌, Map, lookup, map, ◌>>=◌, is_some,
}
use cangling_update.Text.{Text, text, text_eq, text_is_eq}
use cangling_update.Binaries.Elf.{Arch, amd64, arm64, parse, slug, label, asset_name, elf_arch}
use cangling_update.Binaries.Versions.{needs_upgrade}

pub record FileInfo : Type 0 where
  pub is_file : Bool
  pub size : ℕ
  pub head : List ℕ

-- `none`: `metadata` or `open` fails.
abbrev pub Files : Type 0
Files = Map Text FileInfo

pub record Entry : Type 0 where
  pub is_file : Bool
  pub name : Text
  pub path : Text

pub record StoredBinary : Type 0 where
  pub arch : Text
  pub label : Text
  pub available : Bool
  pub size : ℕ
  pub path : Option Text

abbrev pub min_bytes : ℕ
min_bytes = 1024

abbrev pub same_arch : Arch → Arch → Bool
same_arch amd64 amd64 = true
same_arch arm64 arm64 = true
same_arch _ _ = false

abbrev pub is_arch : Arch → Option Arch → Bool
is_arch a none = false
is_arch a (some b) = same_arch b a

unfoldable pub elf_arch_file : Files → Text → Option Arch
elf_arch_file files path = do info ← lookup path files; elf_arch info.head

unfoldable pub stored_at : Files → Text → Arch → Option StoredBinary
stored_at files path arch = do
  info ← lookup path files
  if not info.is_file || ltb info.size min_bytes
      then none
      else if is_arch arch (elf_arch_file files path)
      then some (record {
        arch = slug arch;
        label = label arch;
        available = true;
        size = info.size;
        path = some path;
      })
      else none

-- The loop over the entries; `hit` is the first file whose header fits.
unfoldable pub search_entries : Files → Arch → Option Text → List Entry → Option Text
search_entries files arch hit [] = hit
search_entries files arch hit (e ∷ es) =
    let fits = is_arch arch (elf_arch_file files e.path) in
    let rest =
      search_entries files arch
        (if e.is_file && not (is_some hit) && fits then some e.path else hit) es in
    if e.is_file && text_eq e.name (asset_name arch) then some e.path else rest

-- `none` in place of the entries: the directory `latest` is not there.
unfoldable pub find_np4_update_binary : Files → Option (List Entry) → Arch → Option Text
find_np4_update_binary files latest arch = do es ← latest; search_entries files arch none es

-- The server's data that an offer depends on.
pub record Store : Type 0 where
  pub files : Files
  pub latest : Option (List Entry)
  pub updates_dir : Text

unfoldable pub binary_path : Store → Arch → Text
binary_path s arch = s.updates_dir ++ (b'/' ∷ asset_name arch)

abbrev pub or_else {ℓ} : {A : Type ℓ} → Option A → Option A → Option A
or_else none o = o
or_else (some a) o = some a

unfoldable pub stored : Store → Arch → Option StoredBinary
stored s arch =
    or_else (do path ← find_np4_update_binary s.files s.latest arch; stored_at s.files path arch)
      (stored_at s.files (binary_path s arch) arch)

abbrev missing : Arch → StoredBinary
missing arch = record {
  arch = slug arch;
  label = label arch;
  available = false;
  size = 0;
  path = none;
}

unfoldable pub inventory : Store → List StoredBinary
inventory s =
    map (λ arch. elim (stored s arch) [ some info ↦ info | none ↦ missing arch ])
      (amd64 ∷ arm64 ∷ [])

pub record UpgradeOffer : Type 0 where
  pub version : Text
  pub arch : Text
  pub size : ℕ

-- `master` is the version that this program was built as.
unfoldable pub offer_for : Text → Store → Text → Text → Option UpgradeOffer
offer_for master s worker_version worker_arch =
    if not (needs_upgrade master worker_version) then none else (do
      arch ← parse worker_arch
      info ← stored s arch
      some (record { version = master; arch = slug arch; size = info.size }))
