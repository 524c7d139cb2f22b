-- ===== src/Binaries/Elf.antt =====
-- `Arch` and `elf_arch` of src/binaries.rs.
pub mod Header
use cangling_update.Base.{
  ℕ, ◌+◌, ◌*◌, ◌<◌, ◌≤◌, Bool, true, false, not, ◌&&◌, ◌||◌, List, [], ◌∷◌, ◌++◌, Option, none,
  some, ltb, ◌==◌, if◌then◌else◌, get_or, length, get_elem?, ◌>>=◌, ◌≡◌, refl, arith,
}
use cangling_update.Text.{Text, text, text_eq, one_of, trim, to_ascii_lowercase, strip_prefix}

pub data Arch : Type 0 where
  amd64 arm64 : Arch

-- `Arch::parse`
unfoldable pub arch_named : Text → Option Arch
arch_named s =
    if one_of s ("x86_64" ∷ "x86-64" ∷ "amd64" ∷ "linux-amd64" ∷ "x64" ∷ [])
    then some amd64
    else if one_of s ("aarch64" ∷ "arm64" ∷ "linux-arm64" ∷ "armv8" ∷ "armv8l" ∷ "armv8a" ∷ [])
    then some arm64
    else none

unfoldable pub parse : Text → Option Arch
unfolding arch_named
parse raw =
    let s = to_ascii_lowercase (trim raw) in
    arch_named (get_or (strip_prefix (text "cangling-update-") s) s)

unfoldable pub slug : Arch → Text
slug amd64 = text "linux-amd64"
slug arm64 = text "linux-arm64"

unfoldable pub asset_name : Arch → Text
asset_name amd64 = text "cangling-update-linux-amd64"
asset_name arm64 = text "cangling-update-linux-arm64"

unfoldable pub label : Arch → Text
label amd64 = text "x86_64"
label arm64 = text "ARM64"

abbrev pub em_x86_64 : ℕ
em_x86_64 = 62

abbrev pub em_aarch64 : ℕ
em_aarch64 = 183

abbrev pub at : List ℕ → ℕ → ℕ
at bytes i = get_or (get_elem? bytes i) 0

unfoldable pub machine : ℕ → ℕ → ℕ → ℕ
machine order first second = if order == 2 then first * 256 + second else second * 256 + first

unfoldable pub arch_of_machine : ℕ → Option Arch
arch_of_machine em =
    if em == em_x86_64 then some amd64 else if em == em_aarch64 then some arm64 else none

-- The reads are in bounds behind the first test.
unfoldable pub elf_arch : List ℕ → Option Arch
unfolding machine arch_of_machine
elf_arch bytes =
    if ltb (length bytes) 20
    then none
    else if not
        (at bytes 0 == 0x7f && at bytes 1 == b'E' && at bytes 2 == b'L' && at bytes 3 == b'F')
    then none
    else arch_of_machine (machine (at bytes 5) (at bytes 18) (at bytes 19))
