-- ===== src/Paths/Names.antt =====
-- What the readers of names and mounts accept.
use cangling_update.Base.{
  ℕ, Bool, true, false, not, ◌&&◌, ◌||◌, List, [], ◌∷◌, Option, none, some, ◌==◌, is_empty, any,
  get_or, ◌≡◌, ◌⊎◌, refl, subst, arith, Bool-cases, Option-cases, inl, inr, All, All-append,
}
use cangling_update.Text.{
  Text, text, text_eq, is_whitespace, trim, trim_matches, trim_start_matches, trim_end_matches,
  split_by_whole, trim_start_matches_kept, trim_end_matches-append, lines,
}
use cangling_update.Errors.{ok, refuse_if-then}
use cangling_update.Paths.{
  is_component, file_name, is_separator, safe_filename, is_jar_name, JarMount, volume_host_path,
  service_after, mount_of, jar_mounts, parse_compose_jar_mounts,
}

module _ (p : ℕ → Bool) where
  trim_end_matches_idem :
      (s : Text) → trim_end_matches p (trim_end_matches p s) ≡ trim_end_matches p s
  unfolding trim_end_matches
  trim_end_matches_idem [] = refl
  trim_end_matches_idem (c ∷ s) = elim (Bool-cases (p c && is_empty (trim_end_matches p s))) [
    | inl e ↦ rw e refl
    | inr e ↦ rw e (rw (trim_end_matches_idem s) (rw e refl))
  ]

  -- The rest after the start is empty, or begins with a character that stays.
  trim_start_matches-head :
      (s : Text)
      → (trim_start_matches p s ≡ [])
        ⊎ ((c : ℕ) × (t : Text) × (p c ≡ false) × (trim_start_matches p s ≡ c ∷ t))
  unfolding trim_start_matches
  trim_start_matches-head [] = inl refl
  trim_start_matches-head (c ∷ s) = elim (Bool-cases (p c)) [
    | inl e ↦ rw e (trim_start_matches-head s)
    | inr e ↦ inr (c, s, e, rw e refl)
  ]

  nothing :
      trim_end_matches p (trim_start_matches p (trim_end_matches p [])) ≡ trim_end_matches p []
  unfolding trim_start_matches trim_end_matches
  nothing = refl

  trim_matches_idem : (s : Text) → trim_matches p (trim_matches p s) ≡ trim_matches p s
  unfolding trim_matches
  trim_matches_idem s = elim (trim_start_matches-head s) [
    | inl e ↦ rw e nothing
    | inr (c, t, stays, e) ↦
        let ends : trim_end_matches p (c ∷ t) ≡ c ∷ trim_end_matches p t =
          trim_end_matches-append p c [] t stays in
        rw
          (
            e,
            ends,
            trim_start_matches_kept p c (trim_end_matches p t) stays,
            trim_end_matches-append p c [] (trim_end_matches p t) stays,
            trim_end_matches_idem t,
          )
          refl
  ]

any_fewer : (s : Text) → any is_separator s ≡ false → any (λ c. c == b'/') s ≡ false
any_fewer [] h = refl
any_fewer (c ∷ s) h = ground (arith, any_fewer s)

file_name_whole :
    (b : Text)
    → (is_empty b || text_eq b (text ".") || text_eq b (text "..")) ≡ false
    → any is_separator b ≡ false
    → file_name b ≡ some b
unfolding file_name
file_name_whole b h k =
    let one = split_by_whole (λ c. c == b'/') b (any_fewer b k) in
    let e : is_component b ≡ true = ground arith in
    let d : text_eq b (text "..") ≡ false = ground arith in rw (one, e, d) refl

safe_filename_again :
    (b : Text)
    → trim b ≡ b
    → (is_empty b || text_eq b (text ".") || text_eq b (text "..")) ≡ false
    → any is_separator b ≡ false
    → safe_filename b ≡ ok b
unfolding safe_filename
safe_filename_again b t h k = rw (file_name_whole b h k, t, h, k) refl

-- A file name that is accepted is not empty, is none of the two dots, has no separator and no NUL in it,
-- and is accepted as it is.
pub safe_filename-safe :
    (name : Text) {base : Text}
    → safe_filename name ≡ ok base
    → (is_empty base ≡ false)
      × (text_eq base (text "..") ≡ false)
      × (any is_separator base ≡ false)
      × (safe_filename base ≡ ok base)
unfolding safe_filename
safe_filename-safe name {base} h =
    let b = trim (get_or (file_name name) []) in
    let (some_name, h1) =
      refuse_if-then (is_empty b || text_eq b (text ".") || text_eq b (text "..")) _ _ h in
    let (plain, last) = refuse_if-then (any is_separator b) _ _ h1 in
    let same : b ≡ base = ground arith in
    subst
      (λ x.
        (is_empty x ≡ false)
        × (text_eq x (text "..") ≡ false)
        × (any is_separator x ≡ false)
        × (safe_filename x ≡ ok x))
      same
      (
        ground arith,
        ground arith,
        plain,
        safe_filename_again b (trim_matches_idem is_whitespace (get_or (file_name name) []))
            some_name plain,
      )

-- What is listed as a jar mount.
pub record IsJarMount (m : JarMount) : Type 0 where
  pub has_service : is_empty m.service ≡ false
  pub is_jar : is_jar_name m.basename ≡ true
  pub last : file_name m.host_path ≡ some m.basename

mount_of-All : (service : Text) (host : Option Text) → All IsJarMount (mount_of service host)
mount_of-All service none = tt
mount_of-All service (some host) = elim (Option-cases (file_name host)) [
  | inl bare ↦ rw bare tt
  | inr (base, named) ↦ elim (Bool-cases (not (is_jar_name base) || is_empty service)) [
    | inl bad ↦ rw (named, bad) tt
    | inr good ↦
        rw (named, good)
          (record { has_service = ground arith; is_jar = ground arith; last = named }, tt)
  ]
]

jar_mounts-All : (current : Text) (ls : List Text) → All IsJarMount (jar_mounts current ls)
unfolding jar_mounts
jar_mounts-All current [] = tt
jar_mounts-All current (raw ∷ ls) =
    All-append IsJarMount (mount_of (service_after current raw) (volume_host_path raw)) _
      (mount_of-All (service_after current raw) (volume_host_path raw))
      (jar_mounts-All (service_after current raw) ls)

-- Every jar mount that is found in a compose file, whatever the file holds, is of a service with a name,
-- and its base name is the last component of its host path and ends in `.jar`, in capitals or not.
pub parse_compose_jar_mounts-All :
    (compose_text : Text) → All IsJarMount (parse_compose_jar_mounts compose_text)
unfolding parse_compose_jar_mounts
parse_compose_jar_mounts-All compose_text = jar_mounts-All [] (lines compose_text)
