-- ===== src/Projects/History.antt =====
-- The revisions of a project as a history, the newest first.
use cangling_update.Base.{
  ℕ, ◌<◌, ◌≤◌, false, List, [], ◌∷◌, ◌++◌, if◌then◌else◌, keep, length, ◌≡◌, refl, ap, arith,
  Bool-cases, inl, inr, All, All-mono, sort_by, sort_by-last, subst, length-append,
}
use cangling_update.Text.{Text, text_eq, text_eq_iff}
use cangling_update.Projects.Tables.{ComposeRevision, not_revision_of, max}
use cangling_update.Projects.Revisions.{revision_of, revisions_of, max_rev, next_no, newer, history}

max-upper : (rs : List ComposeRevision) (n : ℕ) → max_rev rs ≤ n → All (λ r. r.rev_no ≤ n) rs
max-upper [] n h = tt
max-upper (r ∷ rs) n h = (ground (arith, h), max-upper rs n (ground (arith, h)))

not_newer : (a b : ComposeRevision) → a.rev_no < b.rev_no → newer a b ≡ false
not_newer a b h = ground (arith, h)

pub revisions_of-append :
    (id : Text) (rows : List ComposeRevision) (r : ComposeRevision)
    → revisions_of id (rows ++ r ∷ [])
      ≡ (if revision_of id r then revisions_of id rows ++ r ∷ [] else revisions_of id rows)
revisions_of-append id [] r = ground arith
revisions_of-append id (x ∷ rows) r = elim (Bool-cases (revision_of id x)) [
  | inl e ↦ rw (e, revisions_of-append id rows r) (ground arith)
  | inr e ↦ rw (e, revisions_of-append id rows r) refl
]

-- A row with the next number stands first in the history of its project, and the other histories stay.
pub history-append :
    (rows : List ComposeRevision) (r : ComposeRevision) (id : Text)
    → r.rev_no ≡ next_no rows r.project_id
    → history (rows ++ r ∷ []) id
      ≡ (if revision_of id r then r ∷ history rows id else history rows id)
unfolding history
history-append rows r id h = elim (Bool-cases (revision_of id r)) [
  | inl e ↦
      let same : r.project_id ≡ id = (text_eq_iff r.project_id id).0 e in
      let next : r.rev_no ≡ next_no rows id = subst (λ i. r.rev_no ≡ next_no rows i) same h in
      rw (revisions_of-append id rows r, e)
        (sort_by-last newer (revisions_of id rows) r (
          All-mono (λ x. x.rev_no ≤ max_rev (revisions_of id rows)) (λ x. newer x r ≡ false)
            (revisions_of id rows) (λ x l. not_newer x r (omega (arith, l, next)))
            (max-upper (revisions_of id rows) (max_rev (revisions_of id rows)) (omega arith))))
  | inr e ↦ rw (revisions_of-append id rows r, e) refl
]

-- Numbers without a gap: each project's highest is the number of its revisions.
abbrev pub Counted : List ComposeRevision → Type 0
Counted rows = (id : Text) → max_rev (revisions_of id rows) ≡ length (revisions_of id rows)

max_rev-append :
    (rows : List ComposeRevision) (r : ComposeRevision)
    → max_rev (rows ++ r ∷ []) ≡ max (max_rev rows) r.rev_no
max_rev-append [] r = ground arith
max_rev-append (x ∷ rows) r = ground (arith, max_rev-append rows r)

pub append-Counted :
    (rows : List ComposeRevision) (r : ComposeRevision)
    → r.rev_no ≡ next_no rows r.project_id
    → Counted rows
    → Counted (rows ++ r ∷ [])
append-Counted rows r h c id = elim (Bool-cases (revision_of id r)) [
  | inl e ↦
      let same : r.project_id ≡ id = (text_eq_iff r.project_id id).0 e in
      let next : r.rev_no ≡ next_no rows id = subst (λ i. r.rev_no ≡ next_no rows i) same h in
      rw
        (
          revisions_of-append id rows r,
          e,
          max_rev-append (revisions_of id rows) r,
          length-append (revisions_of id rows) (r ∷ []),
        )
        (ground (arith, next, c id))
  | inr e ↦ rw (revisions_of-append id rows r, e) (c id)
]

revisions_of-erase_other :
    (id other : Text) (rows : List ComposeRevision)
    → text_eq other id ≡ false
    → revisions_of other (keep (not_revision_of id) rows) ≡ revisions_of other rows
revisions_of-erase_other id other [] h = refl
revisions_of-erase_other id other (x ∷ rows) h = elim (Bool-cases (revision_of other x)) [
  | inl e ↦
      let same = (text_eq_iff x.project_id other).0 e in
      let apart : text_eq x.project_id id ≡ false = rw same h in
      rw (apart, e) (ap (λ rest. x ∷ rest) (revisions_of-erase_other id other rows h))
  | inr e ↦ elim (Bool-cases (not_revision_of id x)) [
    | inl k ↦ rw (k, e) (revisions_of-erase_other id other rows h)
    | inr k ↦ rw (k, e) (revisions_of-erase_other id other rows h)
  ]
]

revisions_of-erase :
    (id : Text) (rows : List ComposeRevision)
    → revisions_of id (keep (not_revision_of id) rows) ≡ []
revisions_of-erase id [] = refl
revisions_of-erase id (x ∷ rows) = elim (Bool-cases (revision_of id x)) [
  | inl e ↦ rw e (revisions_of-erase id rows)
  | inr e ↦ rw (e, e) (revisions_of-erase id rows)
]

-- Without the rows of one project its history is empty, and the others stay.
pub revisions_of-erased :
    (id other : Text) (rows : List ComposeRevision)
    → revisions_of other (keep (not_revision_of id) rows)
      ≡ (if text_eq other id then [] else revisions_of other rows)
revisions_of-erased id other rows = elim (Bool-cases (text_eq other id)) [
  | inl e ↦ rw (e, (text_eq_iff other id).0 e) (revisions_of-erase id rows)
  | inr e ↦ rw e (revisions_of-erase_other id other rows e)
]

pub erase-Counted :
    (id : Text) (rows : List ComposeRevision)
    → Counted rows
    → Counted (keep (not_revision_of id) rows)
erase-Counted id rows c other =
    rw (revisions_of-erased id other rows)
      (elim (Bool-cases (text_eq other id)) [ inl e ↦ rw e refl | inr e ↦ rw e (c other) ])

pub history-erase :
    (id other : Text) (rows : List ComposeRevision)
    → history (keep (not_revision_of id) rows) other
      ≡ (if text_eq other id then [] else history rows other)
unfolding history sort_by
history-erase id other rows =
    rw (revisions_of-erased id other rows)
      (elim (Bool-cases (text_eq other id)) [ inl e ↦ rw e refl | inr e ↦ rw e refl ])
