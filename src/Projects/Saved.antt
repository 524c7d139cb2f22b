-- ===== src/Projects/Saved.antt =====
-- What a save of a compose file that is answered well leaves.
use mathlib.Core.List.{append_assoc}
use cangling_update.Base.{
  Bool, true, false, List, [], ◌∷◌, ◌++◌, if◌then◌else◌, is_empty, any, map, ◌≡◌, ◌⊎◌, refl, sym,
  ap, ◌∙◌, arith, Bool-cases, inl, inr, subst,
}
use cangling_update.Text.{
  Text, text_eq, text_eq_iff, len, trim_matches, trim_start_matches, trim_end_matches,
}
use cangling_update.Errors.{AppError, ok, refuse_if}
use cangling_update.Projects.Tables.{ProjectDb, ComposeRevision}
use cangling_update.Projects.Revisions.{meta, first_of, list_compose_revisions}
use cangling_update.Projects.Save.{
  Env, Disk, Stamp, Site, ComposeFileView, SaveRequest, compose_etag, read_compose_disk, has_etag,
  differs, note_of, record_compose_revision, snapshot_disk_if_needed, validate_compose_text,
  compose_file_view,
}
use cangling_update.Projects.Write.{
  save_compose_content, save_same, save_new, config_check, changed_text,
}
use cangling_update.Projects.Kept.{
  or_keep-then, past, Newest, Grown, recorded, snapshot-Newest, done-subst,
}

abbrev pub held : Disk → Text
held d = if d.exists then d.content else []

-- The file holds the text, its revision is the newest, the answer says so, the revisions before are still
-- there, and so is one of the file as it was under the lock, if that was not empty.
pub record Saved (s s' : Site) (req : SaveRequest) (view : ComposeFileView) : Type 0 where
  pub on_disk : held s'.disk ≡ req.content
  pub expected : differs req.expected_etag (compose_etag (held s.disk)) ≡ false
  pub newest : Newest s'.db req.project_id (compose_etag req.content)
  pub shown : view.matches_latest ≡ true
  pub grown : Grown s.db s'.db req.project_id
  pub old_kept :
      (is_empty (held s.disk) ≡ true)
      ⊎ (any (λ r. text_eq r.etag (compose_etag (held s.disk))) (past s'.db req.project_id) ≡ true)

first-meta :
    (etag : Text) (rs : List ComposeRevision)
    → has_etag etag (first_of rs) ≡ true
    → has_etag etag (first_of (map meta rs)) ≡ true
first-meta etag [] h = h
first-meta etag (r ∷ rs) h = h

Newest-any :
    (etag : Text) (rs new : List ComposeRevision)
    → has_etag etag (first_of rs) ≡ true
    → any (λ r. text_eq r.etag etag) (new ++ rs) ≡ true
Newest-any etag [] new h = absurd (cc h)
Newest-any etag (r ∷ rs) [] h = rw h refl
Newest-any etag (r ∷ rs) (x ∷ new) h = rw (Newest-any etag (r ∷ rs) new h) (ground arith)

Grown-trans : (a b c : ProjectDb) (id : Text) → Grown a b id → Grown b c id → Grown a c id
Grown-trans a b c id (new, g) (more, k) =
    (more ++ new, k ∙ ap (λ rs. more ++ rs) g ∙ sym (append_assoc more new (past a id)))

save_new-Saved :
    (env : Env) (s : Site) (stamp stamp' : Stamp) (req : SaveRequest) {s' : Site}
    {view : ComposeFileView}
    → differs req.expected_etag (compose_etag (held s.disk)) ≡ false
    → save_new env s stamp stamp' req ≡ (s', ok view)
    → Saved s s' req view
unfolding save_new read_compose_disk compose_file_view list_compose_revisions
save_new-Saved env s stamp stamp' req {s'} {view} ex h =
    let disk = held s.disk in
    let written : Site = record s { disk = record { exists = true; content = req.content } } in
    let (db1, snapped, rest) =
      or_keep-then written
        (snapshot_disk_if_needed env.conflict_text s.db stamp req.project_id req.filename disk
          (compose_etag disk))
        _ h in
    let (p, done, end) =
      or_keep-then (record written { db = db1 })
        (record_compose_revision env.conflict_text db1 stamp' req.project_id req.filename
          req.content (note_of req) req.kind)
        _ rest in
    let (g1, kept) =
      snapshot-Newest env.conflict_text s.db stamp req.project_id req.filename disk snapped in
    let (g2, newest) =
      recorded env.conflict_text db1 stamp' req.project_id req.filename req.content (note_of req)
        req.kind done in
    let (more, k) = g2 in
    done-subst (λ t v. Saved s t req v) end
      (record {
        on_disk = refl;
        expected = ex;
        newest = newest;
        shown = first-meta (compose_etag req.content) (past p.0 req.project_id) newest;
        grown = Grown-trans s.db db1 p.0 req.project_id g1 g2;
        old_kept = elim kept [
          | inl blank ↦ inl blank
          | inr there ↦
              inr (rw k (Newest-any (compose_etag disk) (past db1 req.project_id) more there))
        ];
      })

save_same-Saved :
    (env : Env) (s : Site) (stamp : Stamp) (req : SaveRequest) {s' : Site} {view : ComposeFileView}
    → differs req.expected_etag (compose_etag (held s.disk)) ≡ false
    → req.content ≡ held s.disk
    → is_empty (held s.disk) ≡ false
    → save_same env s stamp req ≡ (s', ok view)
    → Saved s s' req view
unfolding save_same read_compose_disk compose_file_view list_compose_revisions
save_same-Saved env s stamp req ex same filled h =
    let disk = held s.disk in
    let (db1, snapped, end) =
      or_keep-then s
        (snapshot_disk_if_needed env.conflict_text s.db stamp req.project_id req.filename disk
          (compose_etag disk))
        _ h in
    let (grown, kept) =
      snapshot-Newest env.conflict_text s.db stamp req.project_id req.filename disk snapped in
    let newest : Newest db1 req.project_id (compose_etag disk) = elim kept [
      | inl blank ↦ absurd (cc (blank, filled))
      | inr there ↦ there
    ] in
    done-subst (λ t v. Saved s t req v) end
      (record {
        on_disk = sym same;
        expected = ex;
        newest = subst (λ c. Newest db1 req.project_id (compose_etag c)) (sym same) newest;
        shown = first-meta (compose_etag disk) (past db1 req.project_id) newest;
        grown = grown;
        old_kept = inr (Newest-any (compose_etag disk) (past db1 req.project_id) [] newest);
      })

valid-filled :
    (env : Env) (content : Text)
    → validate_compose_text env content ≡ ok tt
    → is_empty content ≡ false
unfolding validate_compose_text trim_matches trim_start_matches trim_end_matches len
valid-filled env [] h = absurd (cc h)
valid-filled env (c ∷ cs) h = refl

refuse_if-passed : (b : Bool) (e : AppError) {u : Unit {0}} → refuse_if b e ≡ ok u → b ≡ false
refuse_if-passed true e h = absurd (cc h)
refuse_if-passed false e h = refl

-- Whatever the file was at the two readings: where a save is answered well, it leaves what `Saved` says.
pub save_compose_content-Saved :
    (env : Env) (first : Disk) (s : Site) (stamp stamp' : Stamp) (req : SaveRequest) {s' : Site}
    {view : ComposeFileView}
    → save_compose_content env first s stamp stamp' req ≡ (s', ok view)
    → Saved s s' req view
unfolding save_compose_content read_compose_disk
save_compose_content-Saved env first s stamp stamp' req h =
    let (valid, is_valid, h1) = or_keep-then s (validate_compose_text env req.content) _ h in
    let (early, at_first, h2) =
      or_keep-then s
        (refuse_if (differs req.expected_etag (compose_etag (held first))) changed_text) _ h1 in
    let (late, under_lock, h3) =
      or_keep-then s
        (refuse_if (differs req.expected_etag (compose_etag (held s.disk))) changed_text) _ h2 in
    let ex : differs req.expected_etag (compose_etag (held s.disk)) ≡ false =
      refuse_if-passed _ _ under_lock in
    elim (Bool-cases (text_eq req.content (held s.disk))) [
      | inl e ↦
          let same = (text_eq_iff req.content (held s.disk)).0 e in
          save_same-Saved env s stamp req ex same
            (subst (λ c. is_empty c ≡ false) same (valid-filled env req.content is_valid))
            (rw e at h3)
      | inr e ↦
          let (passed, config, h4) = or_keep-then s (config_check env req.content) _ (rw e at h3) in
          save_new-Saved env s stamp stamp' req ex h4
    ]
