-- ===== src/Backups/Once.antt =====
-- No project is backed up twice on one day, and none that is due is left out.
use mathlib.Core.Option.{some}
use cangling_update.Base.{
  ℕ, false, List, [], ◌∷◌, any, find, ◌≡◌, refl, sym, ap, ◌∙◌, subst, arith, Bool-cases, inl, inr,
  All, All-mono, All-append, Mem-All, All-Mem, Pairwise, Pairwise-last,
}
use cangling_update.Text.{Text, text_eq, text_eq_iff}
use cangling_update.Errors.{Result, ok, err, Result-cases, check-then, ok-subst}
use cangling_update.Backups.Schedule.{
  BackupSchedule, BackupScheduleBody, Schedules, Clock, RunSchedule, is_of, upsert, rewritten,
  visit, visit_all, enabled_schedules, tick, check_body, save_schedule,
}
use cangling_update.Backups.Runs.{row, MadeFor, visit-cases}

abbrev pub DatedRow : Text → Schedules → Text → Type 0
DatedRow today db id = (t : BackupSchedule) × (row db id ≡ some t) × (t.last_run_date ≡ today)

-- The projects of the log are different, and their rows bear the date.
pub record Dated (today : Text) (st : Schedules × List Text) : Type 0 where
  pub distinct : Pairwise (λ a b. text_eq a b ≡ false) st.1
  pub dated : All (DatedRow today st.0) st.1

fresh_in :
    (today : Text) (db : Schedules) (id j : Text) (s : BackupSchedule)
    → row db id ≡ some s
    → text_eq s.last_run_date today ≡ false
    → DatedRow today db j
    → text_eq j id ≡ false
fresh_in today db id j s h e (t, k, d) = elim (Bool-cases (text_eq j id)) [
  | inr apart ↦ apart
  | inl alike ↦
      let same : some t ≡ some s = sym k ∙ ap (row db) ((text_eq_iff j id).0 alike) ∙ h in
      let one : t ≡ s = cc same in
      let date = (text_eq_iff s.last_run_date today).1 (ap (λ r. r.last_run_date) (sym one) ∙ d) in
      absurd (cc (date, e))
]

pub text_eq_comm : (a b : Text) → text_eq a b ≡ text_eq b a
text_eq_comm a b = ground (arith, text_eq_iff a b, text_eq_iff b a)

MadeFor-Dated :
    (run : RunSchedule) (c : Clock) (st st' : Schedules × List Text) (id : Text)
    → Dated c.today st
    → MadeFor run c st id st'
    → Dated c.today st'
MadeFor-Dated run c (db, log) (db', log') id d (s, h, fresh, grown, dated, others, ps) =
    let apart : All (λ j. text_eq j id ≡ false) log =
      All-mono (DatedRow c.today db) _ log (λ j k. fresh_in c.today db id j s h fresh k) d.dated in
    record {
      distinct =
          subst (Pairwise (λ a b. text_eq a b ≡ false)) (sym grown)
            (Pairwise-last (λ a b. text_eq a b ≡ false) log id d.distinct apart);
      dated = subst (All (DatedRow c.today db')) (sym grown) (
          All-append (DatedRow c.today db') log (id ∷ [])
            (Mem-All (DatedRow c.today db') log (λ j m.
              let (t, k, e) = All-Mem (DatedRow c.today db) log d.dated m in
              (
                t,
                others j (text_eq_comm id j ∙ All-Mem (λ i. text_eq i id ≡ false) log apart m) ∙ k,
                e,
              )))
            (dated, tt));
    }

visit_all-Dated :
    (run : RunSchedule) (c : Clock) (ss : List BackupSchedule) (st : Schedules × List Text)
    → Dated c.today st
    → Dated c.today (visit_all run c ss st)
visit_all-Dated run c [] st d = d
visit_all-Dated run c (s ∷ ss) st d =
    visit_all-Dated run c ss (visit run c s st) (elim (visit-cases run c s st) [
      | inl same ↦ subst (Dated c.today) (sym same) d
      | inr made ↦ MadeFor-Dated run c st (visit run c s st) s.project_id d made
    ])

upsert-DatedRow :
    (today id : Text) (body : BackupScheduleBody) (now : ℕ) (rows : List BackupSchedule) (j : Text)
    {t : BackupSchedule}
    → find (is_of j) rows ≡ some t
    → t.last_run_date ≡ today
    → (u : BackupSchedule) × (find (is_of j) (upsert id body now rows) ≡ some u)
      × (u.last_run_date ≡ today)
upsert-DatedRow today id body now [] j h d = absurd (cc h)
upsert-DatedRow today id body now (s ∷ rows) j {t} h d = elim (Bool-cases (is_of id s)) [
  | inl mine ↦ elim (Bool-cases (is_of j s)) [
    | inl e ↦
        let same : s ≡ t = cc (rw e at h) in
        (rewritten body now s, rw (mine, e) refl, ap (λ r. r.last_run_date) same ∙ d)
    | inr e ↦ (t, rw (mine, e) (rw e at h), d)
  ]
  | inr other ↦ elim (Bool-cases (is_of j s)) [
    | inl e ↦ (t, rw (other, e) (rw e at h), d)
    | inr e ↦
        let (u, k, e') = upsert-DatedRow today id body now rows j (rw e at h) d in
        (u, rw (other, e) k, e')
  ]
]

save_schedule-rows :
    (conflict_text : Text) (db : Schedules) (now : ℕ) (id : Text) (body : BackupScheduleBody)
    {r : Schedules × BackupSchedule}
    → save_schedule conflict_text db now id body ≡ ok r
    → record db { rows = upsert id body now db.rows } ≡ r.0
unfolding save_schedule
save_schedule-rows conflict_text db now id body h =
    let (checked, rest) = check-then (check_body db body) _ h in
    elim (Bool-cases (any (λ p. text_eq p id) db.projects)) [
      | inl e ↦
          ok-subst (λ r. record db { rows = upsert id body now db.rows } ≡ r.0) (rw e at rest) refl
      | inr e ↦ absurd (cc (rw e at rest))
    ]

-- What happens on a day: the scheduler ticks, and schedules are saved.
pub data DayEvent : Type 0 where
  ticked : ℕ → ℕ → ℕ → DayEvent
  saved : ℕ → Text → BackupScheduleBody → DayEvent

abbrev after_save :
    Schedules × List Text → Result (Schedules × BackupSchedule) → Schedules × List Text
after_save st (err e) = st
after_save st (ok r) = (r.0, st.1)

module _ (run : RunSchedule) (conflict_text today : Text) where
  unfoldable pub on_day : Schedules × List Text → List DayEvent → Schedules × List Text
  unfolding tick save_schedule
  on_day st [] = st
  on_day st (ticked now hour minute ∷ es) =
      on_day (tick run (record { now = now; today = today; hour = hour; minute = minute }) st) es
  on_day st (saved now id body ∷ es) =
      on_day (after_save st (save_schedule conflict_text st.0 now id body)) es

  saved-Dated :
      (st : Schedules × List Text) (now : ℕ) (id : Text) (body : BackupScheduleBody)
      → Dated today st
      → Dated today (after_save st (save_schedule conflict_text st.0 now id body))
  saved-Dated st now id body d =
      elim (Result-cases (save_schedule conflict_text st.0 now id body)) [
        | inr (e, refused) ↦ rw refused d
        | inl (r, done) ↦ rw done (record {
          distinct = d.distinct;
          dated =
              subst (λ db. All (DatedRow today db) st.1)
                (save_schedule-rows conflict_text st.0 now id body done)
                (All-mono (DatedRow today st.0) _ st.1
                  (λ j (t, k, e). upsert-DatedRow today id body now st.0.rows j k e) d.dated);
        })
      ]

  on_day-Dated :
      (st : Schedules × List Text) (es : List DayEvent)
      → Dated today st
      → Dated today (on_day st es)
  unfolding on_day tick
  on_day-Dated st [] d = d
  on_day-Dated st (ticked now hour minute ∷ es) d =
      let c : Clock = record { now = now; today = today; hour = hour; minute = minute } in
      on_day-Dated _ es (visit_all-Dated run c (enabled_schedules st.0) st d)
  on_day-Dated st (saved now id body ∷ es) d =
      on_day-Dated (after_save st (save_schedule conflict_text st.0 now id body)) es
        (saved-Dated st now id body d)

  -- Whatever ticks and changes of schedules there are on a day, in whatever order: no project is backed up
  -- twice.
  pub backed_up_once :
      (db : Schedules) (es : List DayEvent)
      → Pairwise (λ a b. text_eq a b ≡ false) (on_day (db, []) es).1
  backed_up_once db es = (on_day-Dated (db, []) es (record { distinct = tt; dated = tt })).distinct
