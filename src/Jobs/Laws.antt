-- ===== src/Jobs/Laws.antt =====
-- What the calls keep of every job, and which jobs they leave alone.
use cangling_update.Base.{
  ℕ, ◌*◌, ◌/◌, ◌≤◌, true, false, not, none, some, ltb, if◌then◌else◌, lookup, length, min, ◌≡◌,
  arith, lookup-insert_self, lookup-insert_ne, ◌∙◌, All, All-keep, All-insert, All-lookup,
  lookup-keep, Bool-cases, Option-cases, lookup-insert, inl, inr,
}
use cangling_update.Text.{Text, text_is_eq, text_eq, text_eq_iff}
use cangling_update.Jobs.{
  JobProgress, JobHub, u64_max, max_jobs, create, get, advance, modify, set, succeed, fail, Call,
  creates, sets, finishes_ok, finishes_err, step, pending_job,
}

-- The percentage is one, and a job that has ended well stands at 100.
pub record IsSound (job : JobProgress) : Type 0 where
  pub percent_le : job.percent ≤ 100
  pub finished : job.done ≡ true → job.error ≡ none → job.percent ≡ 100
  pub open_job : job.done ≡ false → job.error ≡ none

abbrev pub HubInv : JobHub → Type 0
HubInv = All (λ e. IsSound e.1)

advance-IsSound :
    (phase message : Text) (current total : ℕ) (job : JobProgress)
    → IsSound job
    → IsSound (advance phase message current total job)
unfolding advance
advance-IsSound phase message current total job s = ground (arith, s.finished, s.open_job)

succeed-IsSound : (message : Text) (job : JobProgress) → IsSound (succeed message job)
unfolding succeed
succeed-IsSound message job = ground arith

fail-IsSound : (error : Text) (job : JobProgress) → IsSound job → IsSound (fail error job)
unfolding fail
fail-IsSound error job s = ground (arith, s.finished, s.open_job)

modify-HubInv :
    (hub : JobHub) (id : Text) (f : JobProgress → JobProgress)
    → ((job : JobProgress) → IsSound job → IsSound (f job))
    → HubInv hub
    → HubInv (modify hub id f)
modify-HubInv hub id f keeps inv = elim (Option-cases (lookup id hub)) [
  | inl e ↦ rw (e, modify) inv
  | inr (job, e) ↦
      rw (e, modify)
        (All-insert IsSound id (f job) hub (keeps job (All-lookup IsSound id hub inv e)) inv)
]

create-HubInv : (hub : JobHub) (id : Text) → HubInv hub → HubInv (create hub id)
unfolding create
create-HubInv hub id inv = elim (Bool-cases (ltb max_jobs (length hub))) [
  | inl full ↦
      rw full (All-insert IsSound id _ _ (ground arith) (All-keep _ (λ e. not (e.1).done) hub inv))
  | inr room ↦ rw room (All-insert IsSound id _ hub (ground arith) inv)
]

-- Every call keeps each percentage at most 100, a job that has ended without an error at exactly 100,
-- and an error on ended jobs only.
pub step-HubInv : (hub : JobHub) (c : Call) → HubInv hub → HubInv (step hub c)
unfolding step
step-HubInv hub (creates id) inv = create-HubInv hub id inv
step-HubInv hub (sets id phase message current total) inv =
    modify-HubInv hub id _ (advance-IsSound phase message current total) inv
step-HubInv hub (finishes_ok id message) inv =
    modify-HubInv hub id _ (λ job _. succeed-IsSound message job) inv
step-HubInv hub (finishes_err id error) inv = modify-HubInv hub id _ (fail-IsSound error) inv

advance_done :
    (phase message : Text) (current total : ℕ) (job : JobProgress)
    → job.done ≡ true
    → advance phase message current total job ≡ job
unfolding advance
advance_done phase message current total job h = rw h

-- A report on a job that has ended changes nothing, for that job or another.
pub set_after_end :
    (hub : JobHub) (id j phase message : Text) (current total : ℕ) {job : JobProgress}
    → lookup id hub ≡ some job
    → job.done ≡ true
    → (get (set hub id phase message current total) j ≡ get hub j)
unfolding set get
set_after_end hub id j phase message current total {job} h ended =
    rw (h, modify, advance_done phase message current total job ended)
      (ground (arith, lookup-insert id j job hub, text_eq_iff id j))

-- A new job pushes out none that still runs: whoever polls a running job finds it as it was, and finds
-- the new one waiting at 0 percent.
pub create_keeps_running :
    (hub : JobHub) (id j : Text) {job : JobProgress}
    → text_eq id j ≡ false
    → get hub j ≡ some job
    → job.done ≡ false
    → (get (create hub id) j ≡ some job) × (get (create hub id) id ≡ some (pending_job id))
unfolding create get
create_keeps_running hub id j other h runs = elim (Bool-cases (ltb max_jobs (length hub))) [
  | inl full ↦ (
    rw full (
        lookup-insert_ne id j _ _ other ∙ lookup-keep (λ job. not job.done) j hub h (ground arith)),
    lookup-insert_self id _ _,
  )
  | inr room ↦ (rw room (lookup-insert_ne id j _ _ other ∙ h), lookup-insert_self id _ _)
]

-- A report on a running job stores what it says, and the percentage is the whole hundredths done,
-- at most 100, as long as the count times 100 fits in 64 bits; with a total of 0 it stays.
pub get-set :
    (hub : JobHub) (id phase message : Text) (current total : ℕ) {job : JobProgress}
    → get hub id ≡ some job
    → job.done ≡ false
    → current * 100 ≤ u64_max
    → get (set hub id phase message current total) id
      ≡ some (record {
        id = job.id;
        phase = phase;
        message = message;
        current = current;
        total = total;
        percent = if ltb 0 total then min (current * 100 / total) 100 else job.percent;
        done = false;
        error = job.error;
      })
unfolding set get
get-set hub id phase message current total {job} h runs fits =
    rw (h, modify, lookup-insert_self id (advance phase message current total job) hub)
      (unfold advance in rw runs (ground arith))
