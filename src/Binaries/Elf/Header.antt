-- ===== src/Binaries/Elf/Header.antt =====
-- `elf_arch` on a header, byte by byte.
use cangling_update.Base.{
  ℕ, ◌≤◌, suc, List, [], ◌∷◌, ◌++◌, some, ◌==◌, if◌then◌else◌, length, ◌≡◌, refl, arith,
  length-append, subst, ◌∙◌,
}
use cangling_update.Binaries.Elf.{
  Arch, amd64, arm64, at, elf_arch, machine, arch_of_machine, em_x86_64, em_aarch64,
}

abbrev pub machine_code : Arch → ℕ
machine_code amd64 = em_x86_64
machine_code arm64 = em_aarch64

-- An ELF file from its first byte on: magic, class, byte order, the 12 bytes up to `e_machine`,
-- that field in two bytes, and the rest.
abbrev pub elf_file : Arch → ℕ → ℕ → List ℕ → List ℕ → List ℕ
elf_file a class order between rest =
    let hi = if order == 2 then 0 else machine_code a in
    let lo = if order == 2 then machine_code a else 0 in
    0x7f ∷ b'E' ∷ b'L' ∷ b'F' ∷ class ∷ order ∷ (between ++ hi ∷ lo ∷ rest)

at_first : (xs : List ℕ) (y z : ℕ) (ys : List ℕ) → at (xs ++ y ∷ z ∷ ys) (length xs) ≡ y
at_first [] y z ys = refl
at_first (x ∷ xs) y z ys = at_first xs y z ys

at_second : (xs : List ℕ) (y z : ℕ) (ys : List ℕ) → at (xs ++ y ∷ z ∷ ys) (suc (length xs)) ≡ z
at_second [] y z ys = refl
at_second (x ∷ xs) y z ys = at_second xs y z ys

elf_arch-magic :
    (class order : ℕ) (body : List ℕ)
    → 14 ≤ length body
    → elf_arch (0x7f ∷ b'E' ∷ b'L' ∷ b'F' ∷ class ∷ order ∷ body)
      ≡ arch_of_machine (machine order (at body 12) (at body 13))
unfolding elf_arch
elf_arch-magic class order body h = ground arith

machine-code :
    (a : Arch) (order : ℕ)
    → arch_of_machine (
        machine order
          (if order == 2 then 0 else machine_code a)
          (if order == 2 then machine_code a else 0))
      ≡ some a
unfolding machine arch_of_machine
machine-code amd64 order = ground arith
machine-code arm64 order = ground arith

-- Every ELF file for one of the two processors is recognised, in either byte order, whatever stands in
-- the bytes that are not looked at.
pub elf_arch-elf_file :
    (a : Arch) (class order : ℕ) (between rest : List ℕ)
    → length between ≡ 12
    → elf_arch (elf_file a class order between rest) ≡ some a
elf_arch-elf_file a class order between rest h =
    let hi = if order == 2 then 0 else machine_code a in
    let lo = if order == 2 then machine_code a else 0 in
    let first =
      subst (λ n. at (between ++ hi ∷ lo ∷ rest) n ≡ hi) h (at_first between hi lo rest) in
    let second =
      subst (λ n. at (between ++ hi ∷ lo ∷ rest) (suc n) ≡ lo) h (at_second between hi lo rest) in
    elf_arch-magic class order (between ++ hi ∷ lo ∷ rest)
      (omega (arith, length-append between (hi ∷ lo ∷ rest)))
    ∙ rw (first, second) (machine-code a order)
