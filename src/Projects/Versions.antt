-- ===== src/Projects/Versions.antt =====
-- The invariant of the tables of projects and versions.
use cangling_update.Base.{
  Bool, true, false, not, ◌&&◌, ◌||◌, if◌then◌else◌, ◌≡◌, refl, sym, ap, ◌∙◌, arith, Bool-cases,
  inl, inr,
}
use cangling_update.Text.{Text, text_eq, text_eq_iff}
use cangling_update.Projects.Tables.{Version, of_project, clashes, unmark, mark}

abbrev pub both_current : Version → Version → Bool
both_current v w = text_eq w.project_id v.project_id && (v.is_current && w.is_current)

-- Two versions that share neither their identifier nor project and number, and are not both current in
-- one project.
abbrev pub Apart : Version → Version → Type 0
Apart v w = (clashes v w ≡ false) × (both_current v w ≡ false)

-- As far as `id` is not the project of the second.
abbrev pub ApartBut : Text → Version → Version → Type 0
ApartBut id v w = (clashes v w ≡ false) × ((of_project id w || not (both_current v w)) ≡ true)

abbrev pub restamp : Text → Text → Version → Version
restamp id version_id v = mark id version_id (unmark id v)

pub restamp-kept :
    (id version_id : Text) (v : Version)
    → ((restamp id version_id v).id ≡ v.id)
      × ((restamp id version_id v).project_id ≡ v.project_id)
      × ((restamp id version_id v).version_no ≡ v.version_no)
restamp-kept id version_id v = elim (Bool-cases (of_project id v)) [
  | inl e ↦ rw e (elim (Bool-cases (text_eq v.id version_id)) [
    | inl k ↦ rw (k, e) (refl, refl, refl)
    | inr k ↦ rw k (refl, refl, refl)
  ])
  | inr e ↦ elim (Bool-cases (text_eq v.id version_id)) [
    | inl k ↦ rw (e, k, e) (refl, refl, refl)
    | inr k ↦ rw (e, k) (refl, refl, refl)
  ]
]

pub restamp-current :
    (id version_id : Text) (v : Version)
    → (restamp id version_id v).is_current
      ≡ (if of_project id v then text_eq v.id version_id else v.is_current)
restamp-current id version_id v = elim (Bool-cases (of_project id v)) [
  | inl e ↦
      rw e
        (elim (Bool-cases (text_eq v.id version_id)) [ inl k ↦ rw (k, e) refl | inr k ↦ rw k refl ])
  | inr e ↦ elim (Bool-cases (text_eq v.id version_id)) [
    | inl k ↦ rw (e, k, e) refl
    | inr k ↦ rw (e, k) refl
  ]
]

restamp-clashes :
    (id version_id : Text) (v w : Version)
    → clashes v w ≡ false
    → clashes (restamp id version_id v) (restamp id version_id w) ≡ false
restamp-clashes id version_id v w h =
    let (vi, vp, vn) = restamp-kept id version_id v in
    let (wi, wp, wn) = restamp-kept id version_id w in rw (vi, vp, vn, wi, wp, wn) h

-- Marked are those with one identifier, and two versions do not have the same.
not_both :
    (version_id : Text) (v w : Version)
    → clashes v w ≡ false
    → (text_eq v.id version_id && text_eq w.id version_id) ≡ false
not_both version_id v w h = elim (Bool-cases (text_eq v.id version_id && text_eq w.id version_id)) [
  | inr e ↦ e
  | inl e ↦
      let one : v.id ≡ version_id = (text_eq_iff v.id version_id).0 (ground (arith, e)) in
      let two : w.id ≡ version_id = (text_eq_iff w.id version_id).0 (ground (arith, e)) in
      let same = (text_eq_iff w.id v.id).1 (two ∙ sym one) in absurd (ground (arith, same, h))
]

same_project :
    (id : Text) (v w : Version)
    → text_eq w.project_id v.project_id ≡ true
    → of_project id v ≡ of_project id w
same_project id v w h = ap (λ p. text_eq p id) (sym ((text_eq_iff w.project_id v.project_id).0 h))

restamp-both_current :
    (id version_id : Text) (v w : Version)
    → ApartBut id v w
    → both_current (restamp id version_id v) (restamp id version_id w) ≡ false
restamp-both_current id version_id v w (h, b) =
    let (vi, vp, vn) = restamp-kept id version_id v in
    let (wi, wp, wn) = restamp-kept id version_id w in
    let apart = not_both version_id v w h in
    rw (vp, wp, restamp-current id version_id v, restamp-current id version_id w)
      (elim (Bool-cases (text_eq w.project_id v.project_id)) [
        | inl same ↦ let here = same_project id v w same in ground (arith, same, here, apart, b)
        | inr other ↦ rw other refl
      ])

pub restamp-Apart :
    (id version_id : Text) (v w : Version)
    → ApartBut id v w
    → Apart (restamp id version_id v) (restamp id version_id w)
restamp-Apart id version_id v w h =
    (restamp-clashes id version_id v w h.0, restamp-both_current id version_id v w h)
