-- ===== src/Binaries/Versions.antt =====
-- `strip_v`, `parse_semver`, `is_newer` and `needs_upgrade` of src/binaries.rs.
pub mod Order
use cangling_update.Base.{
  ℕ, ◌^◌, Bool, true, false, not, ◌&&◌, ◌||◌, List, [], ◌∷◌, Option, none, some, ltb, ◌==◌,
  if◌then◌else◌, ◌>>=◌, get_or,
}
use cangling_update.Text.{Text, text, text_eq, trim, split, strip_prefix, parse_unsigned}

pub record Version : Type 0 where
  pub major : ℕ
  pub minor : ℕ
  pub patch : ℕ

abbrev pub u64_bound : ℕ
u64_bound = 2 ^ 64

unfoldable pub strip_v : Text → Text
strip_v tag = get_or (strip_prefix (text "v") (trim tag)) (trim tag)

-- The first three parts; any further ones are not looked at.
unfoldable pub version_of : List Text → Option Version
version_of (a ∷ b ∷ c ∷ rest) = do
  major ← parse_unsigned u64_bound a
  minor ← parse_unsigned u64_bound b
  patch ← parse_unsigned u64_bound c
  some (record { major = major; minor = minor; patch = patch })
version_of _ = none

unfoldable pub parse_semver : Text → Option Version
unfolding version_of
parse_semver s = version_of (split b'.' s)

-- `r > l` on tuples.
unfoldable pub gt_version : Version → Version → Bool
gt_version r l =
    ltb l.major r.major
    || r.major == l.major && (ltb l.minor r.minor || r.minor == l.minor && ltb l.patch r.patch)

unfoldable pub newer_parsed : Option Version → Option Version → Text → Text → Bool
unfolding gt_version
newer_parsed (some r) (some l) remote local = gt_version r l
newer_parsed (some r) none remote local = not (text_eq remote local)
newer_parsed none l remote local = not (text_eq remote local)

unfoldable pub is_newer : Text → Text → Bool
is_newer remote local = newer_parsed (parse_semver remote) (parse_semver local) remote local

unfoldable pub needs_upgrade : Text → Text → Bool
needs_upgrade master worker = is_newer (strip_v master) (strip_v worker)
