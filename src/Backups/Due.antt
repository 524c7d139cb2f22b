-- ===== src/Backups/Due.antt =====
-- A schedule that is due is carried out.
use mathlib.Core.Option.{some}
use cangling_update.Base.{
  true, false, List, [], ◌∷◌, ◌++◌, any, find, ◌≡◌, refl, sym, ap, ◌∙◌, subst, Bool-cases, inl, inr,
  Mem, here, there, All-Mem, Mem-keep, keep-Mem, Pairwise, ℕ,
}
use cangling_update.Text.{Text, text_eq, text_eq_iff, text_eq_refl}
use cangling_update.Errors.{ok}
use cangling_update.Backups.Schedule.{
  BackupSchedule, Schedules, Clock, RunSchedule, is_of, get_schedule, validate_time, before_time,
  visit, visit_all, enabled_schedules, tick,
}
use cangling_update.Backups.Runs.{row, visit-cases}

-- PRIMARY KEY: a project has one row.
abbrev pub DistinctRows : List BackupSchedule → Type 0
DistinctRows rows = Pairwise (λ a b. text_eq a.project_id b.project_id ≡ false) rows

find-distinct :
    (rows : List BackupSchedule) {s : BackupSchedule}
    → DistinctRows rows
    → Mem s rows
    → find (is_of s.project_id) rows ≡ some s
find-distinct [] d m = elim m [ ]
find-distinct (x ∷ rows) d (here same) = rw (same, text_eq_refl x.project_id) refl
find-distinct (x ∷ rows) {s} d (there m) =
    rw (All-Mem (λ y. text_eq x.project_id y.project_id ≡ false) rows d.0 m)
      (find-distinct rows d.1 m)

one_row :
    (rows : List BackupSchedule) (x s : BackupSchedule)
    → DistinctRows rows
    → Mem x rows
    → Mem s rows
    → is_of s.project_id x ≡ true
    → x ≡ s
one_row rows x s d mx ms e =
    let at = find-distinct rows d mx in
    let same : some x ≡ some s =
      sym at
      ∙ ap (λ i. find (is_of i) rows) ((text_eq_iff x.project_id s.project_id).0 e)
      ∙ find-distinct rows d ms in
    cc same

Mem-last {ℓ} : {A : Type ℓ} (xs : List A) (x : A) → Mem x (xs ++ x ∷ [])
Mem-last [] x = here refl
Mem-last (y ∷ xs) x = there (Mem-last xs x)

Mem-before {ℓ} : {A : Type ℓ} (xs ys : List A) {x : A} → Mem x xs → Mem x (xs ++ ys)
Mem-before [] ys m = elim m [ ]
Mem-before (y ∷ xs) ys (here same) = here same
Mem-before (y ∷ xs) ys (there m) = there (Mem-before xs ys m)

module _ (run : RunSchedule) (c : Clock) where
  visit-Mem :
      (x : BackupSchedule) (st : Schedules × List Text) (id : Text)
      → Mem id st.1
      → Mem id (visit run c x st).1
  visit-Mem x st id m = elim (visit-cases run c x st) [
    | inl same ↦ subst (λ t. Mem id t.1) (sym same) m
    | inr (s, h, fresh, grown, dated, others, ps) ↦
        subst (Mem id) (sym grown) (Mem-before st.1 (x.project_id ∷ []) m)
  ]

  visit_all-Mem :
      (xs : List BackupSchedule) (st : Schedules × List Text) (id : Text)
      → Mem id st.1
      → Mem id (visit_all run c xs st).1
  visit_all-Mem [] st id m = m
  visit_all-Mem (x ∷ xs) st id m = visit_all-Mem xs (visit run c x st) id (visit-Mem x st id m)

  -- What a visit for another project leaves.
  visit-other :
      (x : BackupSchedule) (st : Schedules × List Text) (id : Text)
      → is_of id x ≡ false
      → (row (visit run c x st).0 id ≡ row st.0 id)
        × ((visit run c x st).0.projects ≡ st.0.projects)
  visit-other x st id e = elim (visit-cases run c x st) [
    | inl same ↦ (ap (λ t. row t.0 id) same, ap (λ t. t.0.projects) same)
    | inr (s, h, fresh, grown, dated, others, ps) ↦ (others id e, ps)
  ]

  -- The schedule is on, its time has come, and there was no run today.
  pub record Due (st : Schedules × List Text) (s : BackupSchedule) : Type 0 where
    pub in_table : row st.0 s.project_id ≡ some s
    pub enabled : s.enabled ≡ true
    pub not_yet : text_eq s.last_run_date c.today ≡ false
    pub come : (t : ℕ × ℕ) × (validate_time s.time_of_day ≡ ok t) × (before_time c t ≡ false)
    pub known : any (λ p. text_eq p s.project_id) st.0.projects ≡ true

  visit-Due :
      (s : BackupSchedule) (st : Schedules × List Text)
      → Due st s
      → Mem s.project_id (visit run c s st).1
  unfolding visit get_schedule
  visit-Due s (db, log) d =
      let (time, good, late) = d.come in
      let at = d.in_table in
      let on = d.enabled in
      let fresh = d.not_yet in
      let there_it_is = d.known in
      let grown : (visit run c s (db, log)).1 ≡ log ++ s.project_id ∷ [] =
        rw (visit, good, fresh, late, there_it_is, get_schedule, at, on, fresh) refl in
      subst (Mem s.project_id) (sym grown) (Mem-last log s.project_id)

  visit_all-Due :
      (xs : List BackupSchedule) (st : Schedules × List Text) (s : BackupSchedule)
      → Due st s
      → ((x : BackupSchedule) → Mem x xs → is_of s.project_id x ≡ true → x ≡ s)
      → Mem s xs
      → Mem s.project_id (visit_all run c xs st).1
  visit_all-Due [] st s d one m = elim m [ ]
  visit_all-Due (x ∷ xs) st s d one m = elim (Bool-cases (is_of s.project_id x)) [
    | inl e ↦ visit_all-Mem xs (visit run c x st) s.project_id (
        subst (λ y. Mem s.project_id (visit run c y st).1) (sym (one x (here refl) e))
          (visit-Due s st d))
    | inr e ↦
        let (same, ps) = visit-other x st s.project_id e in
        visit_all-Due xs (visit run c x st) s
          (record {
            in_table = same ∙ d.in_table;
            enabled = d.enabled;
            not_yet = d.not_yet;
            come = d.come;
            known = subst (λ l. any (λ p. text_eq p s.project_id) l ≡ true) (sym ps) d.known;
          })
          (λ y inside. one y (there inside))
          (elim m [
            | here is ↦ absurd (
                cc
                  (subst (λ y. is_of s.project_id y ≡ false) (sym is) e, text_eq_refl s.project_id))
            | there later ↦ later
          ])
  ]

  -- A schedule of the table that is due is carried out at this tick, whatever the others do, where a project
  -- has one row.
  pub tick-Due :
      (db : Schedules) (log : List Text) (s : BackupSchedule)
      → DistinctRows db.rows
      → Mem s db.rows
      → Due (db, log) s
      → Mem s.project_id (tick run c (db, log)).1
  unfolding tick
  tick-Due db log s distinct m d =
      visit_all-Due (enabled_schedules db) (db, log) s d
        (λ x inside e.
          one_row db.rows x s distinct (keep-Mem (λ y. y.enabled) db.rows inside).0 m e)
        (Mem-keep (λ y. y.enabled) db.rows d.enabled m)
