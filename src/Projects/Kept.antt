-- ===== src/Projects/Kept.antt =====
-- What a save of a compose file leaves.
use mathlib.Core.Option
use mathlib.Core.Option.{Option, none, some}
use cangling_update.Base.{
  Bool, true, List, [], ◌∷◌, ◌++◌, is_empty, ◌≡◌, ◌⊎◌, refl, sym, ap, ◌∙◌, arith, Bool-cases,
  Option-cases, inl, inr, subst,
}
use cangling_update.Text.{Text, text_eq, text_eq_iff, text_eq_refl}
use cangling_update.Errors.{Result, ok, err, >>=-eq-ok, ok-subst, ◌>>=◌}
use cangling_update.Projects.Tables.{ProjectDb, ComposeRevision, has_project}
use cangling_update.Projects.Revisions.{
  history, full, first_of, insert_row, insert_compose_revision, latest_compose_revision,
  next_compose_rev_no,
}
use cangling_update.Projects.History.{history-append}
use cangling_update.Projects.Save.{
  Stamp, Site, ComposeFileView, compose_etag, has_etag, or_keep, revision, record_compose_revision,
  snapshot_disk_if_needed,
}

pub or_keep-then {ℓ} :
    {A : Type ℓ} (s : Site) (m : Result A) (next : A → Site × Result ComposeFileView) {s' : Site}
    {view : ComposeFileView}
    → or_keep s m next ≡ (s', ok view)
    → (a : A) × (m ≡ ok a) × (next a ≡ (s', ok view))
or_keep-then s (err e) next h = absurd (cc h)
or_keep-then s (ok a) next h = (a, refl, h)

abbrev pub past : ProjectDb → Text → List ComposeRevision
past db id = history db.compose_revisions id

insert_row-ok :
    (conflict_text : Text) (known : Bool) (rows : List ComposeRevision) (r : ComposeRevision)
    {rows' : List ComposeRevision}
    → insert_row conflict_text known rows r ≡ ok rows'
    → rows ++ r ∷ [] ≡ rows'
insert_row-ok conflict_text known rows r h = ground (arith, h)

record_compose_revision-past :
    (conflict_text : Text) (db : ProjectDb) (stamp : Stamp) (id filename content note kind : Text)
    {p : ProjectDb × ComposeRevision}
    → record_compose_revision conflict_text db stamp id filename content note kind ≡ ok p
    → (past p.0 id ≡ p.1 ∷ past db id) × (p.1.etag ≡ compose_etag content)
unfolding record_compose_revision insert_compose_revision next_compose_rev_no
record_compose_revision-past conflict_text db stamp id filename content note kind {p} h =
    let rev = revision stamp id (next_compose_rev_no db id) filename content note kind in
    let (db', inserted, end) = >>=-eq-ok (insert_compose_revision conflict_text db rev) _ h in
    let (rows, stored, last) =
      >>=-eq-ok (insert_row conflict_text (has_project db id) db.compose_revisions rev) _
        inserted in
    ok-subst (λ q. (past q.0 id ≡ q.1 ∷ past db id) × (q.1.etag ≡ compose_etag content)) end
      (
        ok-subst (λ d. past d id ≡ rev ∷ past db id) last
            (subst (λ rs. history rs id ≡ rev ∷ past db id)
              (insert_row-ok conflict_text (has_project db id) db.compose_revisions rev stored)
              (history-append db.compose_revisions rev id refl ∙ rw (text_eq_refl id) refl)),
        refl,
      )

-- The newest revision has the etag.
abbrev pub Newest : ProjectDb → Text → Text → Type 0
Newest db id etag = has_etag etag (first_of (past db id)) ≡ true

-- The history has grown at its front only.
abbrev pub Grown : ProjectDb → ProjectDb → Text → Type 0
Grown before after id = (new : List ComposeRevision) × (past after id ≡ new ++ past before id)

pub recorded :
    (conflict_text : Text) (db : ProjectDb) (stamp : Stamp) (id filename content note kind : Text)
    {p : ProjectDb × ComposeRevision}
    → record_compose_revision conflict_text db stamp id filename content note kind ≡ ok p
    → Grown db p.0 id × Newest p.0 id (compose_etag content)
recorded conflict_text db stamp id filename content note kind {p} h =
    let (grown, etag) =
      record_compose_revision-past conflict_text db stamp id filename content note kind h in
    ((p.1 ∷ [], grown), rw grown ((text_eq_iff p.1.etag (compose_etag content)).1 etag))

recorded-then :
    (conflict_text : Text) (db : ProjectDb) (stamp : Stamp) (id filename content note kind : Text)
    {db' : ProjectDb}
    → (record_compose_revision conflict_text db stamp id filename content note kind >>= λ p. ok p.0)
      ≡ ok db'
    → Grown db db' id × Newest db' id (compose_etag content)
recorded-then conflict_text db stamp id filename content note kind h =
    let (p, done, end) =
      >>=-eq-ok (record_compose_revision conflict_text db stamp id filename content note kind) _
        h in
    ok-subst (λ d. Grown db d id × Newest d id (compose_etag content)) end
      (recorded conflict_text db stamp id filename content note kind done)

has_etag-full :
    (etag : Text) (rs : List ComposeRevision) {r : ComposeRevision}
    → Option.map full (first_of rs) ≡ some r
    → text_eq r.etag etag ≡ true
    → has_etag etag (first_of rs) ≡ true
has_etag-full etag [] h e = absurd (cc h)
has_etag-full etag (x ∷ rs) {r} h e =
    let same : full x ≡ r = cc h in subst (λ y. text_eq y.etag etag ≡ true) (sym same) e

-- After the snapshot the newest revision has the etag of the file, where that is not empty.
pub snapshot-Newest :
    (conflict_text : Text) (db : ProjectDb) (stamp : Stamp) (id filename disk : Text)
    {db' : ProjectDb}
    → snapshot_disk_if_needed conflict_text db stamp id filename disk (compose_etag disk) ≡ ok db'
    → Grown db db' id × ((is_empty disk ≡ true) ⊎ Newest db' id (compose_etag disk))
unfolding snapshot_disk_if_needed latest_compose_revision
snapshot-Newest conflict_text db stamp id filename disk {db'} h =
    elim (Bool-cases (is_empty disk)) [
      | inl blank ↦
          ok-subst (λ d. Grown db d id × ((is_empty disk ≡ true) ⊎ Newest d id (compose_etag disk)))
            (rw blank at h) (([], refl), inl blank)
      | inr filled ↦ elim (Option-cases (latest_compose_revision db id)) [
        | inl none_yet ↦
            let (grown, newest) =
              recorded-then conflict_text db stamp id filename disk _ _
                (rw (filled, none_yet) at h) in
            (grown, inr newest)
        | inr (r, latest) ↦ elim (Bool-cases (text_eq r.etag (compose_etag disk))) [
          | inl same ↦
              ok-subst
                (λ d. Grown db d id × ((is_empty disk ≡ true) ⊎ Newest d id (compose_etag disk)))
                (rw (filled, latest, same) at h)
                (([], refl), inr (has_etag-full (compose_etag disk) (past db id) latest same))
          | inr other ↦
              let (grown, newest) =
                recorded-then conflict_text db stamp id filename disk _ _
                  (rw (filled, latest, other) at h) in
              (grown, inr newest)
        ]
      ]
    ]

-- What holds of one end of a save that is answered well holds of the other's.
pub done-subst {κ} :
    (P : Site → ComposeFileView → Type κ) {s s' : Site} {v v' : ComposeFileView}
    → ◌≡◌ {A = Site × Result ComposeFileView} (s, ok v) (s', ok v')
    → P s v
    → P s' v'
done-subst P {s} {s'} {v} {v'} h x =
    let site : s ≡ s' = ap (λ q. q.0) h in
    let answer : ok v ≡ ok v' = ap (λ q. q.1) h in
    let view : v ≡ v' = cc answer in subst (λ w. P s' w) view (subst (λ t. P t v) site x)
