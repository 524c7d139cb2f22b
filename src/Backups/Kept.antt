-- ===== src/Backups/Kept.antt =====
-- What the retention of scheduled backups removes and keeps.
use mathlib.Core.Option.{some}
use cangling_update.Base.{
  ℕ, zero, suc, Bool, true, false, not, ◌&&◌, List, [], ◌∷◌, any, keep, ◌≡◌, refl, sym, ap, ◌∙◌,
  arith, Bool-cases, Option-cases, inl, inr, All, All-keep, All-sort_by, all-All, all-keep, Mem,
  here, there, Mem-All, All-Mem, Pairwise, keep-Pairwise, sort_by, sort_by-Pairwise, sort_by-Sorted,
}
use cangling_update.Text.{Text, text_eq, text_eq_iff, text_eq_refl, text_leb_total, text_leb_trans}
use cangling_update.Errors.{ok}
use cangling_update.Sql.Quote.{is_safe_sql_name}
use cangling_update.Backups.Once.{text_eq_comm}
use cangling_update.Backups.Retention.{
  BackupManifest, Directory, safe_component, checked, readable, newest_first, list, is_scheduled,
  skip, is_named, remove_backup, remove_all, apply_retention,
}

-- The backups that a directory is named after are what its manifest says, and their names can be used.
abbrev pub WellNamed : Directory → Type 0
WellNamed d =
    (m : BackupManifest) → d.manifest ≡ some m → (m.id ≡ d.name) × (is_safe_sql_name m.id ≡ true)

abbrev pub DistinctNames : List Directory → Type 0
DistinctNames dirs = Pairwise (λ a b. text_eq a.name b.name ≡ false) dirs

abbrev pub first_of {ℓ} : {A : Type ℓ} → ℕ → List A → List A
first_of zero xs = []
first_of (suc n) [] = []
first_of (suc n) (x ∷ xs) = x ∷ first_of n xs

-- The scheduled backups of a database, the newest first.
abbrev pub scheduled : List Directory → Text → Text → List BackupManifest
scheduled dirs service database =
    keep (is_scheduled service database) (sort_by newest_first (readable dirs))

abbrev pub is_old : List BackupManifest → Directory → Bool
is_old olds d = any (λ o. text_eq d.name o.id) olds

-- One that can be removed.
abbrev Removable : List Directory → BackupManifest → Type 0
Removable dirs m = (is_safe_sql_name m.id ≡ true) × (any (is_named m.id) dirs ≡ true)

keep-ext {ℓ} :
    {A : Type ℓ} (p q : A → Bool) (xs : List A) → ((x : A) → p x ≡ q x) → keep p xs ≡ keep q xs
keep-ext p q [] h = refl
keep-ext p q (x ∷ xs) h = rw (h x, keep-ext p q xs h) refl

keep-keep {ℓ} :
    {A : Type ℓ} (p q : A → Bool) (xs : List A) → keep q (keep p xs) ≡ keep (λ x. p x && q x) xs
keep-keep p q [] = refl
keep-keep p q (x ∷ xs) = elim (Bool-cases (p x)) [
  | inl e ↦ rw (e, keep-keep p q xs) refl
  | inr e ↦ rw (e, keep-keep p q xs) refl
]

still_there :
    (id other : Text) (dirs : List Directory)
    → text_eq id other ≡ false
    → any (is_named other) (keep (λ d. not (is_named id d)) dirs) ≡ any (is_named other) dirs
still_there id other [] h = refl
still_there id other (d ∷ dirs) h = elim (Bool-cases (is_named id d)) [
  | inl e ↦
      let gone : is_named other d ≡ false = rw ((text_eq_iff d.name id).0 e) h in
      rw (e, still_there id other dirs h, gone) refl
  | inr e ↦ rw (e, still_there id other dirs h) refl
]

remove_backup-ok :
    (dirs : List Directory) (project_id id : Text)
    → is_safe_sql_name project_id ≡ true
    → is_safe_sql_name id ≡ true
    → any (is_named id) dirs ≡ true
    → remove_backup dirs project_id id ≡ ok (keep (λ d. not (is_named id d)) dirs)
unfolding remove_backup safe_component
remove_backup-ok dirs project_id id p i n = rw (p, i, n) refl

remove_all-old :
    (project_id : Text) (olds : List BackupManifest) (dirs : List Directory)
    → is_safe_sql_name project_id ≡ true
    → All (Removable dirs) olds
    → Pairwise (λ a b. text_eq a.id b.id ≡ false) olds
    → remove_all dirs project_id olds ≡ (keep (λ d. not (is_old olds d)) dirs, ok tt)
remove_all-old project_id [] dirs safe a p = ap (λ ds. (ds, ok tt)) (sym (keep_all dirs))
  where
    keep_all : (ds : List Directory) → keep (λ d. true) ds ≡ ds
    keep_all [] = refl
    keep_all (d ∷ ds) = ap (λ r. d ∷ r) (keep_all ds)
remove_all-old project_id (o ∷ olds) dirs safe a p =
    let name_safe = a.0.0 in
    let there_it_is = a.0.1 in
    let rest = keep (λ d. not (is_named o.id d)) dirs in
    let still : All (Removable rest) olds = Mem-All (Removable rest) olds (λ m inside.
      let (ms, mt) = All-Mem (Removable dirs) olds a.1 inside in
      (
        ms,
        still_there o.id m.id dirs (All-Mem (λ b. text_eq o.id b.id ≡ false) olds p.0 inside) ∙ mt,
      )) in
    rw (remove_all, remove_backup-ok dirs project_id o.id safe name_safe there_it_is)
      (remove_all-old project_id olds rest safe still p.1
        ∙ ap (λ ds. (ds, ok tt))
            (keep-keep (λ d. not (is_named o.id d)) (λ d. not (is_old olds d)) dirs
              ∙ keep-ext _ _ dirs (λ d. ground arith)))

readable-All :
    (P : BackupManifest → Type 0) (dirs : List Directory)
    → ((d : Directory) → Mem d dirs → (m : BackupManifest) → d.manifest ≡ some m → P (checked d m))
    → All P (readable dirs)
readable-All P [] f = tt
readable-All P (d ∷ dirs) f = elim (Option-cases d.manifest) [
  | inl none_read ↦ rw none_read (readable-All P dirs (λ e inside. f e (there inside)))
  | inr (m, read) ↦
      rw read (f d (here refl) m read, readable-All P dirs (λ e inside. f e (there inside)))
]

named_here :
    (d : Directory) (dirs : List Directory) → Mem d dirs → any (is_named d.name) dirs ≡ true
named_here d [] m = elim m [ ]
named_here d (x ∷ dirs) (here same) = rw (same, text_eq_refl x.name) refl
named_here d (x ∷ dirs) (there m) = rw (named_here d dirs m) (ground arith)

readable-Removable :
    (dirs : List Directory) → All WellNamed dirs → All (Removable dirs) (readable dirs)
readable-Removable dirs w = readable-All (Removable dirs) dirs (λ d inside m read.
    let (name, safe) = All-Mem WellNamed dirs w inside m read in
    (safe, ap (λ i. any (is_named i) dirs) name ∙ named_here d dirs inside))

readable-distinct :
    (dirs : List Directory)
    → All WellNamed dirs
    → DistinctNames dirs
    → Pairwise (λ a b. text_eq a.id b.id ≡ false) (readable dirs)
readable-distinct [] w d = tt
readable-distinct (x ∷ dirs) w d = elim (Option-cases x.manifest) [
  | inl none_read ↦ rw none_read (readable-distinct dirs w.1 d.1)
  | inr (m, read) ↦ rw read (
    readable-All (λ b. text_eq m.id b.id ≡ false) dirs
        (λ y inside n found.
          let (mine, s1) = w.0 m read in
          let (yours, s2) = All-Mem WellNamed dirs w.1 inside n found in
          rw (mine, yours) (All-Mem (λ z. text_eq x.name z.name ≡ false) dirs d.0 inside)),
    readable-distinct dirs w.1 d.1,
  )
]

All-skip {ℓ κ} : {A : Type ℓ} (P : A → Type κ) (n : ℕ) (xs : List A) → All P xs → All P (skip n xs)
All-skip P zero xs a = a
All-skip P (suc n) [] a = a
All-skip P (suc n) (x ∷ xs) a = All-skip P n xs a.1

Pairwise-skip {ℓ κ} :
    {A : Type ℓ} (R : A → A → Type κ) (n : ℕ) (xs : List A) → Pairwise R xs → Pairwise R (skip n xs)
Pairwise-skip R zero xs p = p
Pairwise-skip R (suc n) [] p = p
Pairwise-skip R (suc n) (x ∷ xs) p = Pairwise-skip R n xs p.1

Pairwise-first {ℓ κ} :
    {A : Type ℓ} (R : A → A → Type κ) (n : ℕ) (xs : List A)
    → Pairwise R xs
    → All (λ x. All (R x) (skip n xs)) (first_of n xs)
Pairwise-first R zero xs p = tt
Pairwise-first R (suc n) [] p = tt
Pairwise-first R (suc n) (x ∷ xs) p = (All-skip (R x) n xs p.0, Pairwise-first R n xs p.1)

list-ok :
    (dirs : List Directory) (project_id : Text)
    → is_safe_sql_name project_id ≡ true
    → list dirs project_id ≡ ok (sort_by newest_first (readable dirs))
unfolding list safe_component
list-ok dirs project_id safe = rw safe refl

-- What is left of the directories, and which backups are gone: scheduled ones of that database only, and
-- each of the first `retain` is at least as new as each of them.
pub record Retained (dirs left : List Directory) (service database : Text) (retain : ℕ)
    : Type 0 where
  pub left_is :
      left ≡ keep (λ d. not (is_old (skip retain (scheduled dirs service database)) d)) dirs
  pub old_are :
      All
        (λ m. is_scheduled service database m ≡ true)
        (skip retain (scheduled dirs service database))
  pub newest_stay :
      All
        (λ m. All (λ o. newest_first m o ≡ true) (skip retain (scheduled dirs service database)))
        (first_of retain (scheduled dirs service database))

-- Where directories have different names, which are the identifiers in their manifests and can be used, the
-- retention ends well, and removes exactly the scheduled backups of the database behind the first `retain`.
pub apply_retention-Retained :
    (dirs : List Directory) (project_id service database : Text) (retain : ℕ)
    → is_safe_sql_name project_id ≡ true
    → All WellNamed dirs
    → DistinctNames dirs
    → ((apply_retention dirs project_id service database retain).1 ≡ ok tt)
      × Retained dirs
          (apply_retention dirs project_id service database retain).0
          service
          database
          retain
unfolding apply_retention
apply_retention-Retained dirs project_id service database retain safe w d =
    let olds = skip retain (scheduled dirs service database) in
    let removable = All-skip (Removable dirs) retain (scheduled dirs service database) (
      All-keep (Removable dirs) (is_scheduled service database)
        (sort_by newest_first (readable dirs))
        (All-sort_by (Removable dirs) newest_first (readable dirs) (readable-Removable dirs w))) in
    let apart =
      Pairwise-skip (λ a b. text_eq a.id b.id ≡ false) retain (scheduled dirs service database)
        (keep-Pairwise (λ a b. text_eq a.id b.id ≡ false) (is_scheduled service database)
          (sort_by newest_first (readable dirs))
          (sort_by-Pairwise (λ a b. text_eq a.id b.id ≡ false) (λ a b h. text_eq_comm b.id a.id ∙ h)
            newest_first (readable dirs) (readable-distinct dirs w d))) in
    let ordered =
      keep-Pairwise (λ a b. newest_first a b ≡ true) (is_scheduled service database)
        (sort_by newest_first (readable dirs))
        (sort_by-Sorted newest_first (λ a b h. text_leb_total b.created_at a.created_at h)
          (λ a b c h k. text_leb_trans c.created_at b.created_at a.created_at k h)
          (readable dirs)) in
    let end = remove_all-old project_id olds dirs safe removable apart in
    let same : apply_retention dirs project_id service database retain
        ≡ (keep (λ e. not (is_old olds e)) dirs, ok tt) =
      rw (apply_retention, list-ok dirs project_id safe) end in
    (
      ap (λ r. r.1) same,
      record {
        left_is = ap (λ r. r.0) same;
        old_are =
            All-skip (λ m. is_scheduled service database m ≡ true) retain
              (scheduled dirs service database)
              (all-All (is_scheduled service database) (scheduled dirs service database)
                (all-keep (is_scheduled service database) (sort_by newest_first (readable dirs))));
        newest_stay =
            Pairwise-first (λ a b. newest_first a b ≡ true) retain (scheduled dirs service database)
              ordered;
      },
    )
