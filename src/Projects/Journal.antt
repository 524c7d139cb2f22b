-- ===== src/Projects/Journal.antt =====
-- The revisions as two journals without numbers, and how the tables implement them.
use cangling_update.Base.{
  ℕ, suc, ◌≤◌, Bool, true, false, not, ◌&&◌, ◌||◌, List, [], ◌∷◌, ◌++◌, if◌then◌else◌, any, keep,
  map, ◌≡◌, refl, ap, arith, Bool-cases, inl, inr,
}
use cangling_update.Text.{Text, text_eq}
use cangling_update.Errors.{Result, ok, err}
use cangling_update.Projects.Tables.{ProjectDb, ComposeRevision, delete_project}
use cangling_update.Projects.Revisions.{revision_of, revisions_of, max_rev, collides}
use cangling_update.Projects.Save.{Stamp, record_compose_revision, record_env_revision}

-- A revision as it is handed in.
pub record Draft : Type 0 where
  pub stamp : Stamp
  pub project_id : Text
  pub filename : Text
  pub content : Text
  pub note : Text
  pub kind : Text

pub record Journal : Type 0 where
  pub projects : List Text
  pub compose : List Draft
  pub env : List Draft

pub data Call : Type 0 where
  write_compose write_env : Draft → Call
  erase : Text → Call

abbrev pub of : Text → Draft → Bool
of id d = text_eq d.project_id id

-- Taken up where the project is there and no other draft has the identifier.
abbrev pub admits : List Text → List Draft → Draft → Bool
admits projects ds d =
    any (λ p. text_eq p d.project_id) projects && not (any (λ e. text_eq e.stamp.0 d.stamp.0) ds)

abbrev pub take_up : List Text → List Draft → Draft → List Draft × Bool
take_up projects ds d = if admits projects ds d then (ds ++ d ∷ [], true) else (ds, false)

unfoldable pub play_one : Journal → Call → Journal × Bool
play_one j (write_compose d) =
    let (ds, done) = take_up j.projects j.compose d in (record j { compose = ds }, done)
play_one j (write_env d) =
    let (ds, done) = take_up j.projects j.env d in (record j { env = ds }, done)
play_one j (erase id) = (
  record {
    projects = keep (λ p. not (text_eq p id)) j.projects;
    compose = keep (λ d. not (of id d)) j.compose;
    env = keep (λ d. not (of id d)) j.env;
  },
  any (λ p. text_eq p id) j.projects,
)

-- A call that fails leaves the tables.
abbrev or_same : ProjectDb → Result (ProjectDb × ComposeRevision) → ProjectDb × Bool
or_same db (err e) = (db, false)
or_same db (ok p) = (p.0, true)

unfoldable pub run_one : Text → ProjectDb → Call → ProjectDb × Bool
unfolding record_compose_revision record_env_revision
run_one conflict_text db (write_compose d) = or_same db (
    record_compose_revision conflict_text db d.stamp d.project_id d.filename d.content d.note
      d.kind)
run_one conflict_text db (write_env d) =
    or_same db
      (record_env_revision conflict_text db d.stamp d.project_id d.filename d.content d.note d.kind)
run_one conflict_text db (erase id) = delete_project db id

-- The state in the end and the answers on the way.
abbrev pub run {ℓ κ} : {S : Type ℓ} {C : Type κ} → (S → C → S × Bool) → S → List C → S × List Bool
run one s [] = (s, [])
run one s (c ∷ cs) =
    let (s', done) = one s c in let (end, answers) = run one s' cs in (end, done ∷ answers)

abbrev pub draft_of : ComposeRevision → Draft
draft_of r = record {
  stamp = (r.id, r.created_at);
  project_id = r.project_id;
  filename = r.filename;
  content = r.content;
  note = r.note;
  kind = r.kind;
}

-- What the tables hold without the numbers, the etags and the lengths.
abbrev pub forget : ProjectDb → Journal
forget db = record {
  projects = map (λ p. p.id) db.projects;
  compose = map draft_of db.compose_revisions;
  env = map draft_of db.env_revisions;
}

pub map-append {ℓ κ} :
    {A : Type ℓ} {B : Type κ} (f : A → B) (xs : List A) (x : A)
    → map f (xs ++ x ∷ []) ≡ map f xs ++ f x ∷ []
map-append f [] x = refl
map-append f (y ∷ xs) x = ap (λ ys. f y ∷ ys) (map-append f xs x)

pub keep-map {ℓ κ} :
    {A : Type ℓ} {B : Type κ} (p : B → Bool) (f : A → B) (xs : List A)
    → keep p (map f xs) ≡ map f (keep (λ x. p (f x)) xs)
keep-map p f [] = refl
keep-map p f (x ∷ xs) = elim (Bool-cases (p (f x))) [
  | inl e ↦ rw (e, keep-map p f xs) refl
  | inr e ↦ rw (e, keep-map p f xs) refl
]

pub any-map {ℓ κ} :
    {A : Type ℓ} {B : Type κ} (p : B → Bool) (f : A → B) (xs : List A)
    → any p (map f xs) ≡ any (λ x. p (f x)) xs
any-map p f [] = refl
any-map p f (x ∷ xs) = ap (λ b. p (f x) || b) (any-map p f xs)

-- The next number collides with none of the table.
pub fresh_number :
    (rows : List ComposeRevision) (r : ComposeRevision) (n : ℕ)
    → max_rev (revisions_of r.project_id rows) ≤ n
    → r.rev_no ≡ suc n
    → any (collides r) rows ≡ any (λ x. text_eq x.id r.id) rows
fresh_number [] r n h e = refl
fresh_number (x ∷ rows) r n h e = elim (Bool-cases (revision_of r.project_id x)) [
  | inl same ↦
      let more = rw same at h in
      rw (same, fresh_number rows r n (ground (arith, more)) e) (ground (arith, more, e))
  | inr other ↦ rw (other, fresh_number rows r n (rw other at h) e) (ground arith)
]
