-- ===== src/Projects/Current.antt =====
-- The version that a project stands at, after an update and after a roll-back.
use mathlib.Core.Option
use mathlib.Core.Option.{Option, none, some}
use cangling_update.Base.{
  ℕ, suc, ◌≤◌, ◌<◌, Bool, true, false, ◌&&◌, List, [], ◌∷◌, ◌++◌, any, find, map, ◌≡◌, refl, ap,
  arith, Bool-cases, inl, inr, All, All-mono, any-none, find-map, find-some,
}
use cangling_update.Text.{Text, text_eq, text_eq_iff, text_eq_refl}
use cangling_update.Errors.{ok}
use cangling_update.Projects.Tables.{
  ProjectDb, Project, Version, has_project, has_project_id, of_project, versions_of, current_of,
  with_versions, max, max_version, next_version_no, clashes, unmark, mark, touch_project,
  mark_current, insert_version, get_project, get_version,
}
use cangling_update.Projects.Calls.{publish}
use cangling_update.Projects.Versions.{restamp, restamp-kept, restamp-current}
use cangling_update.Projects.Sound.{map-restamp, touch_project-id}

find_first {ℓ} :
    {A : Type ℓ} (p : A → Bool) (xs : List A) → any p xs ≡ true → (x : A) × (find p xs ≡ some x)
find_first p [] h = absurd (cc h)
find_first p (x ∷ xs) h = elim (Bool-cases (p x)) [
  | inl e ↦ (x, rw e refl)
  | inr e ↦ let (y, found) = find_first p xs (rw e at h) in (y, rw e found)
]

find-last {ℓ} :
    {A : Type ℓ} (p : A → Bool) (xs : List A) (x : A)
    → All (λ y. p y ≡ false) xs
    → p x ≡ true
    → find p (xs ++ x ∷ []) ≡ some x
find-last p [] x a h = rw h refl
find-last p (y ∷ xs) x a h = rw a.0 (find-last p xs x a.1 h)

-- The project with its current version.
abbrev pub StandsAt : ProjectDb → Text → Version → Type 0
StandsAt db id v =
    (p : Project) × (get_project db id ≡ some p)
    × (p.current_version_id ≡ some v.id)
    × (p.current_version_no ≡ some v.version_no)

restamp-is_current :
    (id version_id : Text) (v : Version)
    → (of_project id (restamp id version_id v) && (restamp id version_id v).is_current)
      ≡ (of_project id v && text_eq v.id version_id)
restamp-is_current id version_id v =
    rw ((restamp-kept id version_id v).1, restamp-current id version_id v) (ground arith)

-- Where a version of a project is marked, the project stands at it.
pub mark_current-StandsAt :
    (db : ProjectDb) (now : ℕ) (id version_id : Text) {v : Version}
    → has_project db id ≡ true
    → get_version db id version_id ≡ some v
    → StandsAt (mark_current db now id version_id) id v
unfolding mark_current get_project get_version
mark_current-StandsAt db now id version_id {v} h g =
    let (p, found) = find_first (has_project_id id) db.projects h in
    let vs = map (mark id version_id) (map (unmark id) db.versions) in
    let same : p.id ≡ id =
      (text_eq_iff p.id id).0 (find-some (has_project_id id) db.projects found) in
    let moved =
      find-map (has_project_id id) (has_project_id id) (touch_project id now) db.projects
        (λ q. ap (λ i. text_eq i id) (touch_project-id id now q).0) found in
    let current : current_of id vs ≡ some (restamp id version_id v) =
      rw (map-restamp id version_id db.versions) (
        find-map (λ w. of_project id w && text_eq w.id version_id)
          (λ w. of_project id w && w.is_current) (restamp id version_id) db.versions
          (restamp-is_current id version_id) g) in
    let at : current_of (touch_project id now p).id vs ≡ some (restamp id version_id v) =
      rw ((touch_project-id id now p).0, same) current in
    let (vi, vp, vn) = restamp-kept id version_id v in
    (
      with_versions (touch_project id now p) vs,
      ap (Option.map (λ q. with_versions q vs)) moved,
      rw at (ap some vi),
      rw at (ap some vn),
    )

max-upper : (vs : List Version) (n : ℕ) → max_version vs ≤ n → All (λ v. v.version_no ≤ n) vs
max-upper [] n h = tt
max-upper (v ∷ vs) n h = (ground (arith, h), max-upper vs n (ground (arith, h)))

-- Only its identifier can make a version with the next number clash.
unclashed :
    (vs : List Version) (v : Version)
    → max_version (versions_of v.project_id vs) < v.version_no
    → any (λ w. text_eq w.id v.id) vs ≡ false
    → any (clashes v) vs ≡ false
unclashed [] v l h = refl
unclashed (w ∷ vs) v l h = elim (Bool-cases (of_project v.project_id w)) [
  | inl e ↦
      let more = rw e at l in
      rw (e, unclashed vs v (ground (arith, more)) (ground (arith, h))) (ground (arith, more, h))
  | inr e ↦ rw (e, unclashed vs v (rw e at l) (ground (arith, h))) (ground (arith, h))
]

versions_of-append :
    (id : Text) (vs : List Version) (v : Version)
    → of_project id v ≡ true
    → versions_of id (vs ++ v ∷ []) ≡ versions_of id vs ++ v ∷ []
versions_of-append id [] v h = rw h refl
versions_of-append id (w ∷ vs) v h = elim (Bool-cases (of_project id w)) [
  | inl e ↦ rw (e, versions_of-append id vs v h) refl
  | inr e ↦ rw (e, versions_of-append id vs v h) refl
]

max_version-append :
    (vs : List Version) (v : Version)
    → max_version (vs ++ v ∷ []) ≡ max (max_version vs) v.version_no
max_version-append [] v = ground arith
max_version-append (w ∷ vs) v = ground (arith, max_version-append vs v)

max_version-restamp :
    (id version_id other : Text) (vs : List Version)
    → max_version (versions_of other (map (restamp id version_id) vs))
      ≡ max_version (versions_of other vs)
max_version-restamp id version_id other [] = refl
max_version-restamp id version_id other (v ∷ vs) =
    let (vi, vp, vn) = restamp-kept id version_id v in
    elim (Bool-cases (of_project other v)) [
      | inl e ↦ rw (vp, e, vn) (ap (max v.version_no) (max_version-restamp id version_id other vs))
      | inr e ↦ rw (vp, e) (max_version-restamp id version_id other vs)
    ]

-- An update with the next number and an identifier that is new, of a project that is there, is stored: the
-- project then stands at it, and the number after it is next.
pub publish_next :
    (conflict_text : Text) (db : ProjectDb) (now : ℕ) (v : Version)
    → has_project db v.project_id ≡ true
    → v.version_no ≡ next_version_no db v.project_id
    → any (λ w. text_eq w.id v.id) db.versions ≡ false
    → (db' : ProjectDb) × (publish conflict_text db now v ≡ ok db')
      × StandsAt db' v.project_id v
      × (next_version_no db' v.project_id ≡ suc v.version_no)
unfolding publish insert_version next_version_no get_version mark_current
publish_next conflict_text db now v known next fresh =
    let live : Version = record v { is_current = true } in
    let id = v.project_id in
    let db1 : ProjectDb = record db { versions = db.versions ++ live ∷ [] } in
    let here : of_project id live ≡ true = (text_eq_iff id id).1 refl in
    let free = unclashed db.versions live (omega (arith, next)) fresh in
    (
      mark_current db1 now id v.id,
      rw (free, known) refl,
      mark_current-StandsAt db1 now id v.id known (
          find-last (λ w. of_project id w && text_eq w.id v.id) db.versions live
            (All-mono (λ w. text_eq w.id v.id ≡ false) _ db.versions (λ w k. rw k (ground arith))
              (any-none (λ w. text_eq w.id v.id) db.versions fresh))
            (rw (here, text_eq_refl v.id) refl)),
      rw
          (
            map-restamp id v.id (db.versions ++ live ∷ []),
            max_version-restamp id v.id id (db.versions ++ live ∷ []),
            versions_of-append id db.versions live here,
            max_version-append (versions_of id db.versions) live,
          )
          (ground (arith, next)),
    )
