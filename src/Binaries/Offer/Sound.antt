-- ===== src/Binaries/Offer/Sound.antt =====
-- What a worker is offered: a file that is there, for its processor, and only if it is behind.
use cangling_update.Base.{
  ℕ, ◌≤◌, true, Option, none, some, lookup, ◌≡◌, refl, arith, Option-cases, inl, inr,
}
use cangling_update.Text.{Text, text_is_eq}
use cangling_update.Binaries.Elf.{Arch, amd64, arm64, parse, slug, elf_arch}
use cangling_update.Binaries.Versions.{needs_upgrade}
use cangling_update.Binaries.Offer.{
  FileInfo, Files, Store, StoredBinary, UpgradeOffer, min_bytes, is_arch, elf_arch_file, stored_at,
  stored, binary_path, find_np4_update_binary, offer_for,
}

is_arch-some : (a : Arch) (o : Option Arch) → is_arch a o ≡ true → o ≡ some a
is_arch-some amd64 (some amd64) h = refl
is_arch-some amd64 (some arm64) h = cc
is_arch-some arm64 (some arm64) h = refl
is_arch-some arm64 (some amd64) h = cc
is_arch-some a none h = cc

-- The file at a path is a regular one of at least 1024 bytes whose header names the processor.
pub record Serves (files : Files) (path : Text) (a : Arch) (size : ℕ) : Type 0 where
  pub info : FileInfo
  pub found : lookup path files ≡ some info
  pub regular : info.is_file ≡ true
  pub large : min_bytes ≤ info.size
  pub fits : elf_arch info.head ≡ some a
  pub sized : size ≡ info.size

stored_at-Serves :
    (files : Files) (path : Text) (a : Arch) (b : StoredBinary)
    → stored_at files path a ≡ some b
    → Serves files path a b.size
unfolding stored_at elf_arch_file
stored_at-Serves files path a b h = elim (Option-cases (lookup path files)) [
  | inl e ↦ absurd (ground arith)
  | inr (info, e) ↦ record {
    info = info;
    found = e;
    regular = ground arith;
    large = ground arith;
    fits = is_arch-some a (elf_arch info.head) (ground arith);
    sized = ground arith;
  }
]

stored-Serves :
    (s : Store) (a : Arch) (b : StoredBinary)
    → stored s a ≡ some b
    → (path : Text) × Serves s.files path a b.size
unfolding stored
stored-Serves s a b h = elim (Option-cases (find_np4_update_binary s.files s.latest a)) [
  | inl e ↦ (binary_path s a, stored_at-Serves s.files _ a b (ground arith))
  | inr (path, e) ↦ elim (Option-cases (stored_at s.files path a)) [
    | inl bad ↦ (binary_path s a, stored_at-Serves s.files _ a b (ground arith))
    | inr (c, good) ↦ (path, stored_at-Serves s.files path a b (ground arith))
  ]
]

-- Whatever is offered to a worker: its version counts as behind, its processor is known, and some file
-- of the store is a regular one of at least 1024 bytes with an ELF header for that processor, of the
-- size that the offer names; the offer carries the master's version.
pub offer_for-Serves :
    (master : Text) (s : Store) (version arch : Text) (o : UpgradeOffer)
    → offer_for master s version arch ≡ some o
    → (needs_upgrade master version ≡ true)
      × (a : Arch) × (path : Text) × (parse arch ≡ some a)
      × Serves s.files path a o.size
      × (o.version ≡ master)
      × (o.arch ≡ slug a)
unfolding offer_for
offer_for-Serves master s version arch o h = elim (Option-cases (parse arch)) [
  | inl e ↦ absurd (ground arith)
  | inr (a, e) ↦ elim (Option-cases (stored s a)) [
    | inl gone ↦ absurd (ground arith)
    | inr (b, there) ↦
        let (path, serves) = stored-Serves s a b there in
        let sized : o.size ≡ b.size = ground arith in
        (ground arith, a, path, e, rw sized serves, ground arith, ground arith)
  ]
]
