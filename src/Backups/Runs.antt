-- ===== src/Backups/Runs.antt =====
-- How often the scheduler makes a backup.
use mathlib.Core.Option.{Option, some}
use cangling_update.Base.{
  false, not, ◌||◌, List, [], ◌∷◌, ◌++◌, any, find, map, ◌≡◌, ◌⊎◌, refl, sym, ap, ◌∙◌, subst, arith,
  Bool-cases, Option-cases, inl, inr, find-some, find-map,
}
use cangling_update.Text.{Text, text, text_eq, text_eq_iff}
use cangling_update.Errors.{Result, ok, err, Result-cases}
use cangling_update.Backups.Schedule.{
  BackupSchedule, Schedules, Clock, RunSchedule, is_of, get_schedule, change, started, finished,
  set_started, set_finished, close, validate_time, before_time, visit,
}

-- The row of a project.
abbrev pub row : Schedules → Text → Option BackupSchedule
row db id = find (is_of id) db.rows

-- An edit keeps the project of a row.
abbrev Keeps : (BackupSchedule → BackupSchedule) → Type 0
Keeps f = (s : BackupSchedule) → (f s).project_id ≡ s.project_id

change-Keeps : (id : Text) (f : BackupSchedule → BackupSchedule) → Keeps f → Keeps (change id f)
change-Keeps id f k s = elim (Bool-cases (is_of id s)) [ inl e ↦ rw e (k s) | inr e ↦ rw e refl ]

find-change_self :
    (id : Text) (f : BackupSchedule → BackupSchedule) (rows : List BackupSchedule)
    {s : BackupSchedule}
    → Keeps f
    → find (is_of id) rows ≡ some s
    → find (is_of id) (map (change id f) rows) ≡ some (f s)
find-change_self id f rows {s} k h =
    find-map (is_of id) (is_of id) (change id f) rows
      (λ x. ap (λ p. text_eq p id) (change-Keeps id f k x)) h
    ∙ rw (find-some (is_of id) rows h) refl

find-change_other :
    (other id : Text) (f : BackupSchedule → BackupSchedule) (rows : List BackupSchedule)
    → Keeps f
    → text_eq other id ≡ false
    → find (is_of id) (map (change other f) rows) ≡ find (is_of id) rows
find-change_other other id f [] k h = refl
find-change_other other id f (s ∷ rows) k h =
    let rest = find-change_other other id f rows k h in
    rw (rest, change-Keeps other f k s)
      (elim (Bool-cases (is_of other s)) [
        | inl e ↦
            let gone : is_of id s ≡ false = rw ((text_eq_iff s.project_id other).0 e) h in
            rw gone refl
        | inr e ↦ rw e refl
      ])

-- What a visit does where it makes a backup.
abbrev pub MadeFor :
    RunSchedule → Clock → Schedules × List Text → Text → Schedules × List Text → Type 0
MadeFor run c st id st' =
    (s : BackupSchedule) × (row st.0 id ≡ some s)
    × (text_eq s.last_run_date c.today ≡ false)
    × (st'.1 ≡ st.1 ++ id ∷ [])
    × ((t : BackupSchedule) × (row st'.0 id ≡ some t) × (t.last_run_date ≡ c.today))
    × ((other : Text) → text_eq id other ≡ false → row st'.0 other ≡ row st.0 other)
    × (st'.0.projects ≡ st.0.projects)

module _ (run : RunSchedule) (c : Clock) where
  closed :
      (db : Schedules) (id : Text) (r : Result Text) {s : BackupSchedule}
      → row db id ≡ some s
      → ((t : BackupSchedule) × (row (close db c.now id r) id ≡ some t)
          × (t.last_run_date ≡ s.last_run_date))
        × ((other : Text)
            → text_eq id other ≡ false
            → row (close db c.now id r) other ≡ row db other)
        × ((close db c.now id r).projects ≡ db.projects)
  unfolding set_finished
  closed db id (ok b) {s} h = (
    (finished c.now _ _ s, find-change_self id _ db.rows (λ x. refl) h, refl),
    λ other e. find-change_other id other _ db.rows (λ x. refl) e,
    refl,
  )
  closed db id (err b) {s} h = (
    (finished c.now _ _ s, find-change_self id _ db.rows (λ x. refl) h, refl),
    λ other e. find-change_other id other _ db.rows (λ x. refl) e,
    refl,
  )

  made :
      (st : Schedules × List Text) (id : Text) (s : BackupSchedule) (r : Result Text)
      → row st.0 id ≡ some s
      → text_eq s.last_run_date c.today ≡ false
      → MadeFor run c st id (
        close (set_started st.0 c.now id c.today (text "running") (text "自动备份正在执行")) c.now id r,
        st.1 ++ id ∷ [],
      )
  unfolding set_started
  made (db, log) id s r h fresh =
      let begun = set_started db c.now id c.today (text "running") (text "自动备份正在执行") in
      let at : row begun id ≡ some (started c.today c.now (text "running") (text "自动备份正在执行") s) =
        find-change_self id _ db.rows (λ x. refl) h in
      let (dated, others, ps) = closed begun id r at in
      (
        s,
        h,
        fresh,
        refl,
        dated,
        λ other e. others other e ∙ find-change_other id other _ db.rows (λ x. refl) e,
        ps,
      )

  -- A visit does nothing, or makes a backup for the project of the schedule.
  pub visit-cases :
      (s : BackupSchedule) (st : Schedules × List Text)
      → (visit run c s st ≡ st) ⊎ MadeFor run c st s.project_id (visit run c s st)
  unfolding visit get_schedule
  visit-cases s (db, log) = elim (Result-cases (validate_time s.time_of_day)) [
    | inr (e, bad) ↦ inl (rw (visit, bad) refl)
    | inl (time, good) ↦ elim (Bool-cases (text_eq s.last_run_date c.today || before_time c time)) [
      | inl early ↦ inl (rw (visit, good, early) refl)
      | inr due ↦ elim (Bool-cases (not (any (λ p. text_eq p s.project_id) db.projects))) [
        | inl gone ↦ inl (rw (visit, good, due, gone) refl)
        | inr known ↦ elim (Option-cases (row db s.project_id)) [
          | inl no_row ↦ inl (rw (visit, good, due, known, get_schedule, no_row) refl)
          | inr (t, here_it_is) ↦
              elim (Bool-cases (not t.enabled || text_eq t.last_run_date c.today)) [
                | inl off ↦ inl (rw (visit, good, due, known, get_schedule, here_it_is, off) refl)
                | inr on ↦
                    let same : visit run c s (db, log) ≡ (
                      close
                          (set_started db c.now s.project_id c.today (text "running")
                            (text "自动备份正在执行"))
                          c.now s.project_id (run t),
                      log ++ s.project_id ∷ [],
                    ) =
                      rw (visit, good, due, known, get_schedule, here_it_is, on) refl in
                    inr (
                      subst (MadeFor run c (db, log) s.project_id) (sym same)
                        (made (db, log) s.project_id t (run t) here_it_is (ground (arith, on))))
              ]
        ]
      ]
    ]
  ]
