-- ===== src/Binaries/Versions/Order.antt =====
-- The order of versions, and where the comparison falls back on plain inequality of the texts.
use cangling_update.Base.{◌<◌, true, false, List, ◌∷◌, none, some, ◌≡◌, ◌⊎◌, inl, inr, refl, arith}
use cangling_update.Text.{Text, split, parse_unsigned, text_eq, text_eq_iff, text_eq_refl}
use cangling_update.Binaries.Versions.{
  Version, u64_bound, strip_v, parse_semver, gt_version, newer_parsed, is_newer, needs_upgrade,
}

gt_version_asymm : (r l : Version) → gt_version r l ≡ true → gt_version l r ≡ false
unfolding gt_version
gt_version_asymm r l h = ground arith

gt_version_trans :
    (a b c : Version) → gt_version a b ≡ true → gt_version b c ≡ true → gt_version a c ≡ true
unfolding gt_version
gt_version_trans a b c h k = ground arith

gt_version_total : (r l : Version) → gt_version r l ≡ false → gt_version l r ≡ false → r ≡ l
unfolding gt_version
gt_version_total r l h k = ground arith

-- A text that can be read, behind a `v` that may be missing: the numbers of its first three parts.
pub record Reads (x : Text) (v : Version) : Type 0 where
  pub first : Text
  pub second : Text
  pub third : Text
  pub others : List Text
  pub parts : split b'.' (strip_v x) ≡ first ∷ second ∷ third ∷ others
  pub major : parse_unsigned u64_bound first ≡ some v.major
  pub minor : parse_unsigned u64_bound second ≡ some v.minor
  pub patch : parse_unsigned u64_bound third ≡ some v.patch

Reads-parse_semver : (x : Text) (v : Version) → Reads x v → parse_semver (strip_v x) ≡ some v
unfolding parse_semver
Reads-parse_semver x v r = rw (r.parts, r.major, r.minor, r.patch) refl

-- The first of the three numbers that differs is greater.
abbrev pub Later : Version → Version → Type 0
Later r l =
    (l.major < r.major)
    ⊎ ((l.major ≡ r.major) × ((l.minor < r.minor) ⊎ ((l.minor ≡ r.minor) × (l.patch < r.patch))))

gt_version-Later : (r l : Version) → gt_version r l ≡ true → Later r l
unfolding gt_version
gt_version-Later r l h = ground arith

Later-gt_version : (r l : Version) → Later r l → gt_version r l ≡ true
unfolding gt_version
Later-gt_version r l (inl major) = ground arith
Later-gt_version r l (inr (same, inl minor)) = ground arith
Later-gt_version r l (inr (same, inr (same_too, patch))) = ground arith

-- For three versions that can be read: one counts as an upgrade of another exactly when the first of its
-- three numbers that differs is greater. So no two are each newer than the other, newer than newer is
-- newer, and two of which neither is newer have the same three numbers.
pub needs_upgrade_order :
    (x y z : Text) (a b c : Version)
    → Reads x a
    → Reads y b
    → Reads z c
    → (needs_upgrade x y ≡ true → Later a b)
      × (Later a b → needs_upgrade x y ≡ true)
      × (needs_upgrade x y ≡ true → needs_upgrade y x ≡ false)
      × (needs_upgrade x y ≡ true → needs_upgrade y z ≡ true → needs_upgrade x z ≡ true)
      × (needs_upgrade x y ≡ false → needs_upgrade y x ≡ false → a ≡ b)
unfolding needs_upgrade is_newer newer_parsed
needs_upgrade_order x y z a b c p q r =
    rw (Reads-parse_semver x a p, Reads-parse_semver y b q, Reads-parse_semver z c r)
      (
        gt_version-Later a b,
        Later-gt_version a b,
        gt_version_asymm a b,
        gt_version_trans a b c,
        gt_version_total a b,
      )

-- A worker whose version cannot be read is offered every other text as an upgrade, and the master
-- with such a version would be offered the worker's: the comparison does not rule out a downgrade.
pub needs_upgrade_unreadable :
    (master worker : Text)
    → parse_semver (strip_v worker) ≡ none
    → text_eq (strip_v master) (strip_v worker) ≡ false
    → (needs_upgrade master worker ≡ true) × (needs_upgrade worker master ≡ true)
unfolding needs_upgrade is_newer newer_parsed
needs_upgrade_unreadable master worker h ne = ground (
  arith,
  text_eq_iff (strip_v master) (strip_v worker),
  text_eq_iff (strip_v worker) (strip_v master),
)

-- No version is newer than itself, whatever it says.
pub needs_upgrade_irrefl : (x : Text) → needs_upgrade x x ≡ false
unfolding needs_upgrade is_newer newer_parsed gt_version
needs_upgrade_irrefl x = ground (arith, text_eq_refl (strip_v x))
