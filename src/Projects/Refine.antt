-- ===== src/Projects/Refine.antt =====
-- The tables of revisions implement the journals.
use cangling_update.Base.{
  true, not, List, [], ◌∷◌, ◌++◌, if◌then◌else◌, map, ◌≡◌, refl, ap, ◌∙◌, arith, Bool-cases, inl,
  inr,
}
use cangling_update.Text.{Text, text_eq}
use cangling_update.Errors.{ok, err, internal}
use cangling_update.Projects.Tables.{ProjectDb, ComposeRevision, has_project, delete_project}
use cangling_update.Projects.Revisions.{
  revisions_of, max_rev, next_no, insert_row, insert_compose_revision, insert_env_revision,
  next_compose_rev_no, next_env_rev_no,
}
use cangling_update.Projects.Save.{revision, record_compose_revision, record_env_revision}
use cangling_update.Projects.Journal.{
  Draft, Call, write_compose, write_env, erase, of, admits, play_one, run_one, run, forget,
  draft_of, map-append, keep-map, any-map, fresh_number,
}

abbrev pub drafted : List ComposeRevision → Draft → ComposeRevision
drafted rows d =
    revision d.stamp d.project_id (next_no rows d.project_id) d.filename d.content d.note d.kind

-- A draft is inserted exactly where the journal takes it up.
pub insert_row-take_up :
    (conflict_text : Text) (db : ProjectDb) (rows : List ComposeRevision) (d : Draft)
    → insert_row conflict_text (has_project db d.project_id) rows (drafted rows d) ≡ (
        if admits (map (λ p. p.id) db.projects) (map draft_of rows) d
        then ok (rows ++ drafted rows d ∷ [])
        else err (internal conflict_text))
insert_row-take_up conflict_text db rows d =
    rw
      (
        any-map (λ p. text_eq p d.project_id) (λ p. p.id) db.projects,
        any-map (λ e. text_eq e.stamp.0 d.stamp.0) draft_of rows,
        fresh_number rows (drafted rows d) (max_rev (revisions_of d.project_id rows)) (omega arith)
            (omega arith),
      )
      (ground arith)

forget-run_one :
    (conflict_text : Text) (db : ProjectDb) (c : Call)
    → (forget (run_one conflict_text db c).0, (run_one conflict_text db c).1)
      ≡ play_one (forget db) c
unfolding run_one play_one record_compose_revision insert_compose_revision next_compose_rev_no
    record_env_revision insert_env_revision next_env_rev_no delete_project
forget-run_one conflict_text db (write_compose d) =
    elim (Bool-cases (admits (map (λ p. p.id) db.projects) (map draft_of db.compose_revisions) d)) [
      | inl e ↦
          rw (insert_row-take_up conflict_text db db.compose_revisions d, e)
            (ap (λ ds. (record (forget db) { compose = ds }, true))
              (map-append draft_of db.compose_revisions (drafted db.compose_revisions d)))
      | inr e ↦ rw (insert_row-take_up conflict_text db db.compose_revisions d, e) refl
    ]
forget-run_one conflict_text db (write_env d) =
    elim (Bool-cases (admits (map (λ p. p.id) db.projects) (map draft_of db.env_revisions) d)) [
      | inl e ↦
          rw (insert_row-take_up conflict_text db db.env_revisions d, e)
            (ap (λ ds. (record (forget db) { env = ds }, true))
              (map-append draft_of db.env_revisions (drafted db.env_revisions d)))
      | inr e ↦ rw (insert_row-take_up conflict_text db db.env_revisions d, e) refl
    ]
forget-run_one conflict_text db (erase id) =
    rw
      (
        keep-map (λ p. not (text_eq p id)) (λ p. p.id) db.projects,
        keep-map (λ d. not (of id d)) draft_of db.compose_revisions,
        keep-map (λ d. not (of id d)) draft_of db.env_revisions,
        any-map (λ p. text_eq p id) (λ p. p.id) db.projects,
      )
      refl

-- Whatever calls come: the tables hold what the journals hold, and each call is answered as the journals
-- say, that is, a draft is taken up exactly where its project is there and its identifier is new.
pub forget-run :
    (conflict_text : Text) (db : ProjectDb) (calls : List Call)
    → (forget (run (run_one conflict_text) db calls).0, (run (run_one conflict_text) db calls).1)
      ≡ run play_one (forget db) calls
forget-run conflict_text db [] = refl
forget-run conflict_text db (c ∷ calls) =
    ap (λ r. (r.0, (run_one conflict_text db c).1 ∷ r.1))
      (forget-run conflict_text (run_one conflict_text db c).0 calls)
    ∙ ap (λ p. ((run play_one p.0 calls).0, p.1 ∷ (run play_one p.0 calls).1))
        (forget-run_one conflict_text db c)
