-- ===== src/Projects/Positions.antt =====
-- The number of a revision is its position in the journal of its project.
use cangling_update.Base.{
  ℕ, suc, ◌+◌, List, [], ◌∷◌, ◌++◌, keep, length, map, ◌≡◌, refl, sym, ap, ◌∙◌, subst, arith,
  Bool-cases, inl, inr, sort_by,
}
use cangling_update.Text.{Text, text_eq, text_eq_iff}
use cangling_update.Projects.Tables.{ProjectDb, ComposeRevision, not_revision_of, delete_project}
use cangling_update.Projects.Revisions.{
  revision_of, revisions_of, next_no, history, meta, list_compose_revisions, list_env_revisions,
  insert_compose_revision, insert_env_revision, next_compose_rev_no, next_env_rev_no,
}
use cangling_update.Projects.Save.{revision, record_compose_revision, record_env_revision}
use cangling_update.Projects.History.{
  Counted, append-Counted, erase-Counted, history-append, history-erase, revisions_of-append,
  revisions_of-erased,
}
use cangling_update.Projects.Journal.{
  Draft, Call, write_compose, write_env, erase, of, admits, play_one, run_one, run, forget,
  draft_of, map-append, keep-map,
}
use cangling_update.Projects.Refine.{drafted, insert_row-take_up, forget-run}

abbrev pub numbered : ℕ → Draft → ComposeRevision
numbered n d = revision d.stamp d.project_id n d.filename d.content d.note d.kind

-- Numbered upwards from `n`, the newest first, onto what is there.
abbrev pub number_onto : ℕ → List Draft → List ComposeRevision → List ComposeRevision
number_onto n [] older = older
number_onto n (d ∷ ds) older = number_onto (suc n) ds (numbered n d ∷ older)

number_onto-append :
    (n : ℕ) (ds : List Draft) (d : Draft) (older : List ComposeRevision)
    → number_onto n (ds ++ d ∷ []) older ≡ numbered (n + length ds) d ∷ number_onto n ds older
number_onto-append n [] d older = ap (λ k. numbered k d ∷ older) (omega arith)
number_onto-append n (e ∷ ds) d older =
    number_onto-append (suc n) ds d (numbered n e ∷ older)
    ∙ ap (λ k. numbered k d ∷ number_onto (suc n) ds (numbered n e ∷ older)) (omega arith)

length-map {ℓ κ} :
    {A : Type ℓ} {B : Type κ} (f : A → B) (xs : List A) → length (map f xs) ≡ length xs
length-map f [] = refl
length-map f (x ∷ xs) = ap suc (length-map f xs)

-- A table whose histories are the journals of its projects, numbered from 1.
pub record Numbered (rows : List ComposeRevision) : Type 0 where
  pub counted : Counted rows
  pub listed :
      (id : Text) → history rows id ≡ number_onto 1 (map draft_of (revisions_of id rows)) []

pub empty-Numbered : Numbered []
unfolding history sort_by
empty-Numbered = record { counted = λ id. refl; listed = λ id. refl }

append-Numbered :
    (rows : List ComposeRevision) (d : Draft)
    → Numbered rows
    → Numbered (rows ++ drafted rows d ∷ [])
append-Numbered rows d h = record {
  counted = append-Counted rows (drafted rows d) refl h.counted;
  listed = λ id.
      rw
        (history-append rows (drafted rows d) id refl, revisions_of-append id rows (drafted rows d))
        (elim (Bool-cases (revision_of id (drafted rows d))) [
          | inl e ↦
              let same : d.project_id ≡ id = (text_eq_iff d.project_id id).0 e in
              let count : next_no rows d.project_id
                  ≡ 1 + length (map draft_of (revisions_of id rows)) =
                subst
                  (λ i. next_no rows d.project_id ≡ 1 + length (map draft_of (revisions_of i rows)))
                  same
                  (omega (
                    arith,
                    h.counted d.project_id,
                    length-map draft_of (revisions_of d.project_id rows),
                  )) in
              rw
                (
                  e,
                  map-append draft_of (revisions_of id rows) (drafted rows d),
                  number_onto-append 1 (map draft_of (revisions_of id rows)) d [],
                )
                (ap (λ n. numbered n d ∷ history rows id) count
                  ∙ ap
                      (λ rest. numbered (1 + length (map draft_of (revisions_of id rows))) d ∷ rest)
                      (h.listed id))
          | inr e ↦ rw e (h.listed id)
        ]);
}

erase-Numbered :
    (id : Text) (rows : List ComposeRevision)
    → Numbered rows
    → Numbered (keep (not_revision_of id) rows)
erase-Numbered id rows h = record {
  counted = erase-Counted id rows h.counted;
  listed = λ other.
      rw (history-erase id other rows, revisions_of-erased id other rows)
        (elim (Bool-cases (text_eq other id)) [
          | inl e ↦ rw e refl
          | inr e ↦ rw e (h.listed other)
        ]);
}

abbrev BothNumbered : ProjectDb → Type 0
BothNumbered db = Numbered db.compose_revisions × Numbered db.env_revisions

run_one-Numbered :
    (conflict_text : Text) (db : ProjectDb) (c : Call)
    → BothNumbered db
    → BothNumbered (run_one conflict_text db c).0
unfolding run_one record_compose_revision insert_compose_revision next_compose_rev_no
    record_env_revision insert_env_revision next_env_rev_no delete_project
run_one-Numbered conflict_text db (write_compose d) h =
    elim (Bool-cases (admits (map (λ p. p.id) db.projects) (map draft_of db.compose_revisions) d)) [
      | inl e ↦
          rw (insert_row-take_up conflict_text db db.compose_revisions d, e)
            (append-Numbered db.compose_revisions d h.0, h.1)
      | inr e ↦ rw (insert_row-take_up conflict_text db db.compose_revisions d, e) h
    ]
run_one-Numbered conflict_text db (write_env d) h =
    elim (Bool-cases (admits (map (λ p. p.id) db.projects) (map draft_of db.env_revisions) d)) [
      | inl e ↦
          rw (insert_row-take_up conflict_text db db.env_revisions d, e)
            (h.0, append-Numbered db.env_revisions d h.1)
      | inr e ↦ rw (insert_row-take_up conflict_text db db.env_revisions d, e) h
    ]
run_one-Numbered conflict_text db (erase id) h =
    (erase-Numbered id db.compose_revisions h.0, erase-Numbered id db.env_revisions h.1)

run-Numbered :
    (conflict_text : Text) (db : ProjectDb) (calls : List Call)
    → BothNumbered db
    → BothNumbered (run (run_one conflict_text) db calls).0
run-Numbered conflict_text db [] h = h
run-Numbered conflict_text db (c ∷ calls) h =
    run-Numbered conflict_text (run_one conflict_text db c).0 calls
      (run_one-Numbered conflict_text db c h)

-- Whatever calls come, on tables that are numbered by position: a listing has the journal of the project,
-- the newest first, without the contents, and the number of each is its position from 1.
pub revisions_by_position :
    (conflict_text : Text) (db : ProjectDb) (calls : List Call) (id : Text)
    → Numbered db.compose_revisions
    → Numbered db.env_revisions
    → (list_compose_revisions (run (run_one conflict_text) db calls).0 id
        ≡ map meta (number_onto 1 (keep (of id) (run play_one (forget db) calls).0.compose) []))
      × (list_env_revisions (run (run_one conflict_text) db calls).0 id
          ≡ map meta (number_onto 1 (keep (of id) (run play_one (forget db) calls).0.env) []))
unfolding list_compose_revisions list_env_revisions
revisions_by_position conflict_text db calls id h k =
    let end = (run (run_one conflict_text) db calls).0 in
    let (nc, ne) = run-Numbered conflict_text db calls (h, k) in
    let same : forget end ≡ (run play_one (forget db) calls).0 =
      ap (λ r. r.0) (forget-run conflict_text db calls) in
    (
      ap (map meta) (
          nc.listed id
          ∙ ap (λ ds. number_onto 1 ds [])
              (sym (keep-map (of id) draft_of end.compose_revisions)
                ∙ ap (λ j. keep (of id) j.compose) same)),
      ap (map meta) (
          ne.listed id
          ∙ ap (λ ds. number_onto 1 ds [])
              (sym (keep-map (of id) draft_of end.env_revisions)
                ∙ ap (λ j. keep (of id) j.env) same)),
    )
