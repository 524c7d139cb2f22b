-- ===== src/Projects/Sound.antt =====
-- Whatever is done to projects and versions keeps them sound.
use cangling_update.Base.{
  ℕ, true, false, not, ◌||◌, List, [], ◌∷◌, ◌++◌, any, map, ◌≡◌, refl, ap, subst, arith, Bool-cases,
  inl, inr, All, All-map, All-mono, All-append, Pairwise, Pairwise-last, Pairwise-into,
  Pairwise-mono, any-none, any-map,
}
use cangling_update.Text.{Text, text_eq, text_eq_iff}
use cangling_update.Errors.{ok, ok-subst, >>=-eq-ok}
use cangling_update.Projects.Tables.{
  ProjectDb, ProjectRow, Version, has_project, has_project_id, clashes, unmark, mark, touch_project,
  mark_current, insert_version,
}
use cangling_update.Projects.Calls.{publish, back_up}
use cangling_update.Projects.Versions.{Apart, ApartBut, restamp, restamp-kept, restamp-Apart}

abbrev pub ProjectsApart : ProjectRow → ProjectRow → Type 0
ProjectsApart p q = (text_eq q.id p.id || text_eq q.name p.name) ≡ false

-- Identifiers and names of projects are unique; so are the identifiers of versions and their numbers
-- within a project, at most one of which is current; each version has its project.
pub record Sound (db : ProjectDb) : Type 0 where
  pub projects : Pairwise ProjectsApart db.projects
  pub versions : Pairwise Apart db.versions
  pub owned : All (λ v. has_project db v.project_id ≡ true) db.versions

pub insert_version-ok :
    (conflict_text : Text) (db : ProjectDb) (v : Version) {db' : ProjectDb}
    → insert_version conflict_text db v ≡ ok db'
    → (any (clashes v) db.versions ≡ false)
      × (has_project db v.project_id ≡ true)
      × (record db { versions = db.versions ++ v ∷ [] } ≡ db')
unfolding insert_version
insert_version-ok conflict_text db v h =
    elim (Bool-cases (any (clashes v) db.versions || not (has_project db v.project_id))) [
      | inl e ↦ absurd (cc (rw e at h))
      | inr e ↦ (ground (arith, e), ground (arith, e), cc (rw e at h))
    ]

pub text_eq_comm : (a b : Text) → text_eq a b ≡ text_eq b a
text_eq_comm a b = ground (arith, text_eq_iff a b, text_eq_iff b a)

pub clashes_sym : (v w : Version) → clashes v w ≡ false → clashes w v ≡ false
clashes_sym v w h =
    rw (text_eq_comm v.id w.id, text_eq_comm v.project_id w.project_id) (ground (arith, h))

pub map-restamp :
    (id version_id : Text) (vs : List Version)
    → map (mark id version_id) (map (unmark id) vs) ≡ map (restamp id version_id) vs
map-restamp id version_id [] = refl
map-restamp id version_id (v ∷ vs) =
    ap (λ rest. restamp id version_id v ∷ rest) (map-restamp id version_id vs)

pub touch_project-id :
    (id : Text) (now : ℕ) (p : ProjectRow)
    → ((touch_project id now p).id ≡ p.id) × ((touch_project id now p).name ≡ p.name)
touch_project-id id now p = elim (Bool-cases (has_project_id id p)) [
  | inl e ↦ rw e (refl, refl)
  | inr e ↦ rw e (refl, refl)
]

has_project-touch :
    (id : Text) (now : ℕ) (ps : List ProjectRow) (other : Text)
    → any (has_project_id other) (map (touch_project id now) ps) ≡ any (has_project_id other) ps
has_project-touch id now ps other =
    any-map (has_project_id other) (touch_project id now) ps
      (λ p. ap (λ i. text_eq i other) (touch_project-id id now p).0)

touched-ProjectsApart :
    (id : Text) (now : ℕ) (ps : List ProjectRow)
    → Pairwise ProjectsApart ps
    → Pairwise ProjectsApart (map (touch_project id now) ps)
touched-ProjectsApart id now ps h =
    Pairwise-into ProjectsApart ProjectsApart (touch_project id now) ps
      (λ p q k.
        let (pi, pn) = touch_project-id id now p in
        let (qi, qn) = touch_project-id id now q in rw (pi, pn, qi, qn) k)
      h

pub mark_current-Sound :
    (db : ProjectDb) (now : ℕ) (id version_id : Text)
    → Pairwise ProjectsApart db.projects
    → Pairwise (ApartBut id) db.versions
    → All (λ v. has_project db v.project_id ≡ true) db.versions
    → Sound (mark_current db now id version_id)
unfolding mark_current
mark_current-Sound db now id version_id p v o = record {
  projects = touched-ProjectsApart id now db.projects p;
  versions = rw (map-restamp id version_id db.versions) (
      Pairwise-into (ApartBut id) Apart (restamp id version_id) db.versions
        (λ x y k. restamp-Apart id version_id x y k) v);
  owned = rw (map-restamp id version_id db.versions) (
      All-map
        (λ w. any (has_project_id w.project_id) (map (touch_project id now) db.projects) ≡ true)
        (restamp id version_id) db.versions
        (All-mono (λ w. has_project db w.project_id ≡ true) _ db.versions
          (λ w k.
            rw ((restamp-kept id version_id w).1, has_project-touch id now db.projects w.project_id)
              k)
          o));
}

pub Apart-But : (id : Text) (v w : Version) → Apart v w → ApartBut id v w
Apart-But id v w (h, k) = (h, ground (arith, k))

-- A version that is added: the rows after the mark, and the rows as they are.
added :
    (id : Text) (db : ProjectDb) (v : Version)
    → v.project_id ≡ id
    → Pairwise Apart db.versions
    → any (clashes v) db.versions ≡ false
    → Pairwise (ApartBut id) (db.versions ++ v ∷ [])
added id db v same p fresh =
    Pairwise-last (ApartBut id) db.versions v
      (Pairwise-mono Apart (ApartBut id) db.versions (λ x y k. Apart-But id x y k) p)
      (All-mono (λ w. clashes v w ≡ false) (λ w. ApartBut id w v) db.versions
        (λ w k. (clashes_sym v w k, rw ((text_eq_iff v.project_id id).1 same) refl))
        (any-none (clashes v) db.versions fresh))

added-quiet :
    (db : ProjectDb) (v : Version)
    → v.is_current ≡ false
    → Pairwise Apart db.versions
    → any (clashes v) db.versions ≡ false
    → Pairwise Apart (db.versions ++ v ∷ [])
added-quiet db v quiet p fresh = Pairwise-last Apart db.versions v p (
    All-mono (λ w. clashes v w ≡ false) (λ w. Apart w v) db.versions
      (λ w k. (clashes_sym v w k, rw quiet (ground arith)))
      (any-none (clashes v) db.versions fresh))

pub publish-Sound :
    (conflict_text : Text) (db : ProjectDb) (now : ℕ) (v : Version) {db' : ProjectDb}
    → Sound db
    → publish conflict_text db now v ≡ ok db'
    → Sound db'
unfolding publish
publish-Sound conflict_text db now v s h =
    let live : Version = record v { is_current = true } in
    let (db1, stored, end) = >>=-eq-ok (insert_version conflict_text db live) _ h in
    let (fresh, known, now_there) = insert_version-ok conflict_text db live stored in
    ok-subst Sound end (
      subst (λ d. Sound (mark_current d now v.project_id v.id)) now_there
        (mark_current-Sound (record db { versions = db.versions ++ live ∷ [] }) now v.project_id
          v.id s.projects (added v.project_id db live refl s.versions fresh)
          (All-append (λ w. has_project db w.project_id ≡ true) db.versions (live ∷ []) s.owned
            (known, tt))))

pub back_up-Sound :
    (conflict_text : Text) (db : ProjectDb) (v : Version) {db' : ProjectDb}
    → Sound db
    → back_up conflict_text db v ≡ ok db'
    → Sound db'
unfolding back_up
back_up-Sound conflict_text db v s h =
    let quiet : Version = record v { is_current = false } in
    let (fresh, known, now_there) = insert_version-ok conflict_text db quiet h in
    subst Sound now_there (record {
      projects = s.projects;
      versions = added-quiet db quiet refl s.versions fresh;
      owned =
          All-append (λ w. has_project db w.project_id ≡ true) db.versions (quiet ∷ []) s.owned
            (known, tt);
    })
