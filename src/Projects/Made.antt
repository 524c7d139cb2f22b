-- ===== src/Projects/Made.antt =====
-- Projects that are made and deleted keep the tables sound.
use cangling_update.Base.{
  Bool, true, false, not, ◌||◌, List, [], ◌∷◌, any, keep, ◌≡◌, refl, ap, ◌∙◌, subst, arith,
  Bool-cases, inl, inr, All, All-mono, All-append, Mem, Mem-All, All-Mem, keep-Mem, Pairwise-last,
  keep-Pairwise, any-none, any-append,
}
use cangling_update.Text.{Text, text_eq, text_eq_iff}
use cangling_update.Errors.{ok, ok-subst, Result-cases}
use cangling_update.Projects.Tables.{
  ProjectDb, ProjectRow, Version, has_project, has_project_id, of_project, clashes, insert_version,
  insert_project, delete_project,
}
use cangling_update.Projects.Calls.{create_rows, baseline}
use cangling_update.Projects.Versions.{Apart}
use cangling_update.Projects.Sound.{
  ProjectsApart, Sound, text_eq_comm, clashes_sym, insert_version-ok,
}

any-keep_other :
    (id other : Text) (ps : List ProjectRow)
    → text_eq other id ≡ false
    → any (has_project_id other) (keep (λ p. not (has_project_id id p)) ps)
      ≡ any (has_project_id other) ps
any-keep_other id other [] h = refl
any-keep_other id other (p ∷ ps) h = elim (Bool-cases (has_project_id id p)) [
  | inl e ↦
      let gone : text_eq p.id other ≡ false =
        rw ((text_eq_iff p.id id).0 e, text_eq_comm id other) h in
      rw (e, any-keep_other id other ps h, gone) refl
  | inr e ↦ rw (e, any-keep_other id other ps h) refl
]

pub delete_project-Sound : (db : ProjectDb) (id : Text) → Sound db → Sound (delete_project db id).0
unfolding delete_project
delete_project-Sound db id s = record {
  projects = keep-Pairwise ProjectsApart (λ p. not (has_project_id id p)) db.projects s.projects;
  versions = keep-Pairwise Apart (λ v. not (of_project id v)) db.versions s.versions;
  owned = Mem-All _ (keep (λ v. not (of_project id v)) db.versions) (λ v m.
      let (before, other) = keep-Mem (λ v. not (of_project id v)) db.versions m in
      any-keep_other id v.project_id db.projects (ground (arith, other))
      ∙ All-Mem (λ w. has_project db w.project_id ≡ true) db.versions s.owned before);
}

pub insert_project-Sound :
    (conflict_text : Text) (db : ProjectDb) (p : ProjectRow) {db' : ProjectDb}
    → Sound db
    → insert_project conflict_text db p ≡ ok db'
    → Sound db' × (has_project db p.id ≡ false) × (db'.versions ≡ db.versions)
unfolding insert_project
insert_project-Sound conflict_text db p s h =
    elim (Bool-cases (any (λ q. text_eq q.id p.id || text_eq q.name p.name) db.projects)) [
      | inl e ↦ absurd (cc (rw e at h))
      | inr e ↦
          let fresh = any-none (λ q. text_eq q.id p.id || text_eq q.name p.name) db.projects e in
          ok-subst (λ d. Sound d × (has_project db p.id ≡ false) × (d.versions ≡ db.versions))
            (rw e at h)
            (
              record {
                projects = Pairwise-last ProjectsApart db.projects p s.projects (
                    All-mono _ (λ q. ProjectsApart q p) db.projects
                      (λ q k. rw (text_eq_comm p.id q.id, text_eq_comm p.name q.name) k) fresh);
                versions = s.versions;
                owned =
                    All-mono (λ v. has_project db v.project_id ≡ true) _ db.versions
                      (λ v k.
                        rw (any-append (has_project_id v.project_id) db.projects (p ∷ []), k) refl)
                      s.owned;
              },
              none_has db.projects fresh,
              refl,
            )
    ]
  where
    none_has :
        (ps : List ProjectRow)
        → All (λ q. (text_eq q.id p.id || text_eq q.name p.name) ≡ false) ps
        → any (has_project_id p.id) ps ≡ false
    none_has [] a = refl
    none_has (q ∷ ps) a = let first = a.0 in rw (none_has ps a.1) (ground (arith, first))

-- No version is of a project that is not there.
foreign :
    (db : ProjectDb) (id : Text)
    → has_project db id ≡ false
    → All (λ v. has_project db v.project_id ≡ true) db.versions
    → All (λ v. text_eq id v.project_id ≡ false) db.versions
foreign db id h a =
    All-mono (λ v. has_project db v.project_id ≡ true) _ db.versions
      (λ v k. elim (Bool-cases (text_eq id v.project_id)) [
        | inr e ↦ e
        | inl e ↦ absurd (cc (k, h, ap (has_project db) ((text_eq_iff id v.project_id).0 e)))
      ])
      a

pub create_rows-Sound :
    (conflict_text : Text) (db : ProjectDb) (p : ProjectRow) (version_id tree : Text)
    (compose_only : Bool)
    → Sound db
    → Sound (create_rows conflict_text db p (baseline p version_id tree compose_only)).0
unfolding create_rows
create_rows-Sound conflict_text db p version_id tree compose_only s =
    elim (Result-cases (insert_project conflict_text db p)) [
      | inr (e, refused) ↦ rw (create_rows, refused) s
      | inl (db1, stored) ↦
          let v = baseline p version_id tree compose_only in
          let (s1, fresh, same) = insert_project-Sound conflict_text db p s stored in
          elim (Result-cases (insert_version conflict_text db1 v)) [
            | inr (e, refused) ↦
                rw (create_rows, stored, refused) (delete_project-Sound db1 p.id s1)
            | inl (db2, added) ↦
                let (new, known, end) = insert_version-ok conflict_text db1 v added in
                rw (create_rows, stored, added)
                  (subst Sound end (record {
                    projects = s1.projects;
                    versions =
                        Pairwise-last Apart db1.versions v s1.versions
                          (alone db1 v s same fresh new);
                    owned =
                        All-append (λ w. has_project db1 w.project_id ≡ true) db1.versions (v ∷ [])
                          s1.owned (known, tt);
                  }))
          ]
    ]
  where
    alone :
        (db1 : ProjectDb) (v : Version)
        → Sound db
        → db1.versions ≡ db.versions
        → has_project db v.project_id ≡ false
        → any (clashes v) db1.versions ≡ false
        → All (λ w. Apart w v) db1.versions
    alone db1 v s same fresh new =
        Mem-All (λ w. Apart w v) db1.versions
          (λ w m. (
            clashes_sym v w (
                All-Mem (λ x. clashes v x ≡ false) db1.versions
                  (any-none (clashes v) db1.versions new) m),
            rw
                (All-Mem (λ x. text_eq v.project_id x.project_id ≡ false) db.versions
                  (foreign db v.project_id fresh s.owned) (subst (λ ws. Mem w ws) same m))
                refl,
          ))
