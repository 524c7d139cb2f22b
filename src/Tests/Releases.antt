-- ===== src/Tests/Releases.antt =====
-- Versions, headers and offers.
use cangling_update.Base.{ℕ, true, false, List, [], ◌∷◌, none, some, ◌≡◌, refl, lookup}
use cangling_update.Text.{
  Text, text, text_is_eq, split_by, parse_unsigned, trim_matches, is_whitespace, to_lower,
}
use cangling_update.Binaries.Versions.{
  Version, strip_v, parse_semver, needs_upgrade, is_newer, newer_parsed,
}
use cangling_update.Binaries.Versions.Order.{Reads, Later, needs_upgrade_order}
use cangling_update.Binaries.Elf.{Arch, amd64, elf_arch, parse, slug, asset_name}
use cangling_update.Binaries.Elf.Header.{elf_file}
use cangling_update.Binaries.Offer.{
  Store, FileInfo, UpgradeOffer, offer_for, stored, stored_at, elf_arch_file,
  find_np4_update_binary, binary_path,
}
use cangling_update.Binaries.Offer.Sound.{Serves, offer_for-Serves}

abbrev version : ℕ → ℕ → ℕ → Version
version a b c = record { major = a; minor = b; patch = c }

newest-Reads : Reads (text "v0.1.179") (version 0 1 179)
unfolding split_by parse_unsigned strip_v trim_matches is_whitespace text
newest-Reads = record {
  first = text "0";
  second = text "1";
  third = text "179";
  others = [];
  parts = refl;
  major = refl;
  minor = refl;
  patch = refl;
}

older-Reads : Reads (text "0.1.99") (version 0 1 99)
unfolding split_by parse_unsigned strip_v trim_matches is_whitespace text
older-Reads = record {
  first = text "0";
  second = text "1";
  third = text "99";
  others = [];
  parts = refl;
  major = refl;
  minor = refl;
  patch = refl;
}

oldest-Reads : Reads (text "0.0.7") (version 0 0 7)
unfolding split_by parse_unsigned strip_v trim_matches is_whitespace text
oldest-Reads = record {
  first = text "0";
  second = text "0";
  third = text "7";
  others = [];
  parts = refl;
  major = refl;
  minor = refl;
  patch = refl;
}

needs_upgrade_order_example :
    (needs_upgrade (text "v0.1.179") (text "0.1.99") ≡ true
      → Later (version 0 1 179) (version 0 1 99))
    × (Later (version 0 1 179) (version 0 1 99)
        → needs_upgrade (text "v0.1.179") (text "0.1.99") ≡ true)
    × (needs_upgrade (text "v0.1.179") (text "0.1.99") ≡ true
        → needs_upgrade (text "0.1.99") (text "v0.1.179") ≡ false)
    × (needs_upgrade (text "v0.1.179") (text "0.1.99") ≡ true
        → needs_upgrade (text "0.1.99") (text "0.0.7") ≡ true
        → needs_upgrade (text "v0.1.179") (text "0.0.7") ≡ true)
    × (needs_upgrade (text "v0.1.179") (text "0.1.99") ≡ false
        → needs_upgrade (text "0.1.99") (text "v0.1.179") ≡ false
        → version 0 1 179 ≡ version 0 1 99)
needs_upgrade_order_example =
    needs_upgrade_order (text "v0.1.179") (text "0.1.99") (text "0.0.7") (version 0 1 179)
      (version 0 1 99) (version 0 0 7) newest-Reads older-Reads oldest-Reads

abbrev twelve : List ℕ
twelve = 1 ∷ 0 ∷ 0 ∷ 0 ∷ 0 ∷ 0 ∷ 0 ∷ 0 ∷ 0 ∷ 0 ∷ 2 ∷ 0 ∷ []

abbrev release : FileInfo
release = record { is_file = true; size = 4096; head = elf_file amd64 2 1 twelve (1 ∷ []) }

abbrev store : Store
store = record {
  files = (text "up/cangling-update-linux-amd64", release) ∷ [];
  latest = none;
  updates_dir = text "up";
}

abbrev offer : UpgradeOffer
offer = record { version = text "0.2.0"; arch = slug amd64; size = 4096 }

offer_for-Serves_example :
    (needs_upgrade (text "0.2.0") (text "0.1.9") ≡ true)
    × (a : Arch) × (path : Text) × (parse (text "x86_64") ≡ some a)
    × Serves store.files path a 4096
    × (text "0.2.0" ≡ text "0.2.0")
    × (slug amd64 ≡ slug a)
offer_for-Serves_example =
    offer_for-Serves (text "0.2.0") store (text "0.1.9") (text "x86_64") offer (
      unfold offer_for needs_upgrade is_newer newer_parsed parse_semver split_by parse_unsigned
        strip_v trim_matches is_whitespace to_lower parse stored find_np4_update_binary stored_at
        elf_arch_file elf_arch binary_path asset_name lookup text in
      refl)
