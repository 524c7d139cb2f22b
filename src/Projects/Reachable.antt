-- ===== src/Projects/Reachable.antt =====
-- The states that projects and versions can come to.
use cangling_update.Base.{
  ℕ, Bool, true, false, Option-cases, find, not, ◌&&◌, List, [], any, map, ◌≡◌, refl, sym, ap, ◌∙◌,
  arith, Bool-cases, inl, inr, All-mono, Pairwise, Pairwise-into, Pairwise-mono, Pairwise-with,
  any-none, any-map,
}
use cangling_update.Text.{Text, text_eq, text_eq_iff}
use cangling_update.Errors.{Result, ok, err, ok-subst, ◌>>=◌, >>=-eq-ok}
use cangling_update.Projects.Tables.{
  ProjectDb, ProjectRow, list_projects, has_project, has_project_id, update_project, edited,
}
use cangling_update.Projects.Calls.{
  publish, back_up, Event, created, published, backed_up, restored, renamed, deleted, balanced,
  register_loadbalance_project, loadbalance_row, loadbalance_name, is_loadbalance, after, or_before,
}
use cangling_update.Projects.Versions.{Apart, ApartBut}
use cangling_update.Projects.Sound.{
  ProjectsApart, Sound, Apart-But, text_eq_comm, mark_current-Sound, publish-Sound, back_up-Sound,
}
use cangling_update.Projects.Made.{delete_project-Sound, insert_project-Sound, create_rows-Sound}

module _ (id name description directory : Text) (now : ℕ) where
  abbrev change : ProjectRow → ProjectRow
  change = edited id name description directory now

  -- The name is not that of another project.
  abbrev Free : ProjectRow → Type 0
  Free q = (text_eq q.name name && not (has_project_id id q)) ≡ false

  change-ProjectsApart :
      (p q : ProjectRow) → Free p × Free q × ProjectsApart p q → ProjectsApart (change p) (change q)
  change-ProjectsApart p q (fp, fq, h) = elim (Bool-cases (has_project_id id p)) [
    | inl e ↦ elim (Bool-cases (has_project_id id q)) [
      | inl k ↦
          let same =
            (text_eq_iff q.id p.id).1
              ((text_eq_iff q.id id).0 k ∙ sym ((text_eq_iff p.id id).0 e)) in
          absurd (ground (arith, same, h))
      | inr k ↦ rw (e, k) (ground (arith, h, fq, k))
    ]
    | inr e ↦ elim (Bool-cases (has_project_id id q)) [
      | inl k ↦ rw (e, k, text_eq_comm name p.name) (ground (arith, h, fp, e))
      | inr k ↦ rw (e, k) h
    ]
  ]

  change-id : (p : ProjectRow) → (change p).id ≡ p.id
  change-id p = elim (Bool-cases (has_project_id id p)) [ inl e ↦ rw e refl | inr e ↦ rw e refl ]

  has_project-change :
      (ps : List ProjectRow) (other : Text)
      → any (has_project_id other) (map change ps) ≡ any (has_project_id other) ps
  has_project-change ps other =
      any-map (has_project_id other) change ps (λ p. ap (λ i. text_eq i other) (change-id p))

  free_rows :
      (db : ProjectDb)
      → (has_project db id
          && any (λ q. text_eq q.name name && not (has_project_id id q)) db.projects)
        ≡ false
      → Pairwise ProjectsApart db.projects
      → Pairwise ProjectsApart (map change db.projects)
  free_rows db h p = elim (Bool-cases (has_project db id)) [
    | inl e ↦ Pairwise-into _ ProjectsApart change db.projects change-ProjectsApart (
        Pairwise-with Free ProjectsApart db.projects
          (any-none (λ q. text_eq q.name name && not (has_project_id id q)) db.projects (rw e at h))
          p)
    | inr e ↦
        Pairwise-into _ ProjectsApart change db.projects (λ x y k. untouched x y k)
          (Pairwise-with (λ q. has_project_id id q ≡ false) ProjectsApart db.projects
            (any-none (has_project_id id) db.projects e) p)
  ]
    where
      untouched :
          (x y : ProjectRow)
          → (has_project_id id x ≡ false) × (has_project_id id y ≡ false) × ProjectsApart x y
          → ProjectsApart (change x) (change y)
      untouched x y (e, k, h) = rw (e, k) h

  update_project-Sound :
      (conflict_text : Text) (db : ProjectDb) {r : ProjectDb × Bool}
      → Sound db
      → update_project conflict_text db id name description directory now ≡ ok r
      → Sound r.0
  unfolding update_project
  update_project-Sound conflict_text db s h =
      elim (Bool-cases (
        has_project db id
        && any (λ q. text_eq q.name name && not (has_project_id id q)) db.projects)) [
          | inl e ↦ absurd (cc (rw e at h))
          | inr e ↦
              ok-subst (λ r. Sound r.0) (rw e at h)
                (record {
                  projects = free_rows db e s.projects;
                  versions = s.versions;
                  owned =
                      All-mono (λ v. has_project db v.project_id ≡ true) _ db.versions
                        (λ v k. has_project-change db.projects v.project_id ∙ k) s.owned;
                })
        ]

-- A row that is changed, as a handler gives it on.
changed-Sound :
    (conflict_text : Text) (db : ProjectDb) (id name description directory : Text) (now : ℕ)
    {db' : ProjectDb}
    → Sound db
    → (update_project conflict_text db id name description directory now >>= λ done. ok done.0)
      ≡ ok db'
    → Sound db'
changed-Sound conflict_text db id name description directory now s h =
    let attempt = update_project conflict_text db id name description directory now in
    let (r, done, end) = >>=-eq-ok attempt (λ done. ok done.0) h in
    ok-subst Sound end
      (update_project-Sound id name description directory now conflict_text db s done)

register_loadbalance_project-Sound :
    (conflict_text : Text) (db : ProjectDb) (fresh_id directory : Text) (now : ℕ) {db' : ProjectDb}
    → Sound db
    → register_loadbalance_project conflict_text db fresh_id directory now ≡ ok db'
    → Sound db'
unfolding register_loadbalance_project
register_loadbalance_project-Sound conflict_text db fresh_id directory now s h =
    elim (Option-cases (find is_loadbalance (list_projects db))) [
      | inl missing ↦
          (insert_project-Sound conflict_text db (loadbalance_row fresh_id directory now) s
            (rw (register_loadbalance_project, missing) at h)).0
      | inr (p, found) ↦
          changed-Sound conflict_text db p.row.id loadbalance_name _ directory now s
            (rw (register_loadbalance_project, found) at h)
    ]

or_before-Sound :
    (db : ProjectDb) (r : Result ProjectDb)
    → Sound db
    → ((db' : ProjectDb) → r ≡ ok db' → Sound db')
    → Sound (or_before db r)
or_before-Sound db (err e) s f = s
or_before-Sound db (ok d) s f = f d refl

after-Sound :
    (conflict_text : Text) (db : ProjectDb) (e : Event)
    → Sound db
    → Sound (after conflict_text db e)
unfolding after
after-Sound conflict_text db (created p version_id tree compose_only) s =
    create_rows-Sound conflict_text db p version_id tree compose_only s
after-Sound conflict_text db (published now v) s =
    or_before-Sound db (publish conflict_text db now v) s
      (λ d h. publish-Sound conflict_text db now v s h)
after-Sound conflict_text db (backed_up v) s =
    or_before-Sound db (back_up conflict_text db v) s (λ d h. back_up-Sound conflict_text db v s h)
after-Sound conflict_text db (restored now id version_id) s =
    mark_current-Sound db now id version_id s.projects
      (Pairwise-mono Apart (ApartBut id) db.versions (λ v w k. Apart-But id v w k) s.versions)
      s.owned
after-Sound conflict_text db (renamed id name description directory now) s =
    or_before-Sound db
      (update_project conflict_text db id name description directory now >>= λ done. ok done.0) s
      (λ d h. changed-Sound conflict_text db id name description directory now s h)
after-Sound conflict_text db (deleted id) s = delete_project-Sound db id s
after-Sound conflict_text db (balanced fresh_id directory now) s =
    or_before-Sound db (register_loadbalance_project conflict_text db fresh_id directory now) s
      (λ d h. register_loadbalance_project-Sound conflict_text db fresh_id directory now s h)

-- What the tables can come to, from an empty database, by what `Event` lists.
pub data Reachable (conflict_text : Text) : ProjectDb → Type 0 where
  start :
      Reachable conflict_text
        (record { projects = []; versions = []; compose_revisions = []; env_revisions = [] })
  next :
      {db : ProjectDb} (e : Event)
      → Reachable conflict_text db
      → Reachable conflict_text (after conflict_text db e)

-- In every state that can be come to from an empty database by creating, updating, rolling back, renaming
-- and deleting projects and by registering that of the load balancer: no two projects share an identifier or a name, no two versions an
-- identifier, or a number within their project, at most one version of a project is current, and each
-- version has its project.
pub Reachable-Sound :
    {conflict_text : Text} {db : ProjectDb} → Reachable conflict_text db → Sound db
Reachable-Sound start = record { projects = tt; versions = tt; owned = tt }
Reachable-Sound {conflict_text} (next {db} e before) =
    after-Sound conflict_text db e (Reachable-Sound before)
