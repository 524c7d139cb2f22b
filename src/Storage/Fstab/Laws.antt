-- ===== src/Storage/Fstab/Laws.antt =====
-- What the calls do to the entries of a mount point, and to the other lines.
use cangling_update.Base.{
  ℕ, zero, suc, sym, Bool, true, false, not, List, [], ◌∷◌, ◌++◌, any, keep, get_elem?, ◌≡◌, refl,
  arith, All, All-keep, is_empty, Bool-cases, inl, inr,
}
use cangling_update.Text.{
  Text, text, text_eq_iff, lines, unlines, split_whitespace, is_whitespace, split_by-All, is_return,
  lines-IsLine, lines-unlines,
}
use cangling_update.Storage.Fstab.{
  is_some_text, is_entry, is_mounted, entry, persist_fstab, remove_fstab_entry,
}

-- The second of some words that hold no blank is no text with a blank.
not-blank :
    (mnt : Text) (ws : List Text) (i : ℕ)
    → any is_whitespace mnt ≡ true
    → All (λ w. any is_whitespace w ≡ false) ws
    → is_some_text (get_elem? ws i) mnt ≡ false
not-blank mnt [] i h a = refl
not-blank mnt (w ∷ ws) zero h a = ground (arith, text_eq_iff w mnt)
not-blank mnt (w ∷ ws) (suc i) h a = not-blank mnt ws i h a.1

-- A mount point with a blank in it is found in no line.
not-is_entry : (mnt line : Text) → any is_whitespace mnt ≡ true → is_entry mnt line ≡ false
unfolding is_entry split_whitespace
not-is_entry mnt line h =
    not-blank mnt _ 1 h (All-keep _ (λ w. not (is_empty w)) _ (split_by-All is_whitespace line))

any_none {ℓ} :
    {A : Type ℓ} (p : A → Bool) (xs : List A) → ((x : A) → p x ≡ false) → any p xs ≡ false
any_none p [] h = refl
any_none p (x ∷ xs) h = rw (h x) (any_none p xs h)

-- A mount point with a blank in it never counts as mounted, and each call adds its entry once more at
-- the end of the file, even where one is there already.
pub blank_mount_point :
    (table existing fstype src mnt opts : Text)
    → any is_whitespace mnt ≡ true
    → (is_mounted table mnt ≡ false)
      × (persist_fstab existing fstype src mnt opts ≡ (
        existing
            ++ (text "\n# cangling-storage "
                ++ (mnt ++ (b'\n' ∷ (entry fstype src mnt opts ++ b'\n' ∷ [])))),
        true,
      ))
unfolding is_mounted persist_fstab
blank_mount_point table existing fstype src mnt opts h = (
  any_none (is_entry mnt) (lines table) (λ l. not-is_entry mnt l h),
  rw (any_none (is_entry mnt) (lines existing) (λ l. not-is_entry mnt l h)),
)

keep_none {ℓ} :
    {A : Type ℓ} (p : A → Bool) (xs : List A) → any p xs ≡ false → keep (λ x. not (p x)) xs ≡ xs
keep_none p [] h = refl
keep_none p (x ∷ xs) h = let e : p x ≡ false = ground arith in rw (e, keep_none p xs (ground arith))

any-keep-not {ℓ} :
    {A : Type ℓ} (p : A → Bool) (xs : List A) → any p (keep (λ x. not (p x)) xs) ≡ false
any-keep-not p [] = refl
any-keep-not p (x ∷ xs) = elim (Bool-cases (p x)) [
  | inl e ↦ rw e (any-keep-not p xs)
  | inr e ↦ rw (e, e) (any-keep-not p xs)
]

-- Removing a mount point takes away exactly the lines with it as their second field, and tells whether
-- there was one: read again, the file has the other lines, in order, and none of the mount point's. The
-- file holds no carriage return.
pub remove_fstab_entry-lines :
    (content mnt : Text)
    → any is_return content ≡ false
    → (lines (remove_fstab_entry content mnt).0 ≡ keep (λ l. not (is_entry mnt l)) (lines content))
      × (any (is_entry mnt) (lines (remove_fstab_entry content mnt).0) ≡ false)
      × ((remove_fstab_entry content mnt).1 ≡ any (is_entry mnt) (lines content))
unfolding remove_fstab_entry
remove_fstab_entry-lines content mnt h = elim (Bool-cases (any (is_entry mnt) (lines content))) [
  | inl e ↦
      let kept = keep (λ l. not (is_entry mnt l)) (lines content) in
      let again : lines (unlines kept) ≡ kept =
        lines-unlines kept (All-keep _ (λ l. not (is_entry mnt l)) _ (lines-IsLine content h)) in
      rw e (again, rw again (any-keep-not (is_entry mnt) (lines content)), refl)
  | inr e ↦ rw e (sym (keep_none (is_entry mnt) (lines content) e), e, refl)
]
