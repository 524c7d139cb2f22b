-- ===== src/Jobs.antt =====
-- src/progress.rs: the table of background jobs that the console polls. Each call holds the mutex
-- throughout, so it is one step; the UUID of a new job is an argument.
pub mod Laws
use cangling_update.Base.{
  ℕ, ◌+◌, ◌-◌, ◌*◌, ◌/◌, ◌^◌, Bool, true, false, not, Option, none, some, ltb, if◌then◌else◌, Map,
  lookup, insert, length, keep, min,
}
use cangling_update.Text.{Text, text, text_is_eq}

pub record JobProgress : Type 0 where
  pub id : Text
  pub phase : Text
  pub message : Text
  pub current : ℕ
  pub total : ℕ
  pub percent : ℕ
  pub done : Bool
  pub error : Option Text

abbrev pub JobHub : Type 0
JobHub = Map Text JobProgress

abbrev pub u64_max : ℕ
u64_max = 2 ^ 64 - 1

abbrev pub max_jobs : ℕ
max_jobs = 80

abbrev pub pending_job : Text → JobProgress
pending_job id = record {
  id = id;
  phase = text "pending";
  message = text "等待开始";
  current = 0;
  total = 0;
  percent = 0;
  done = false;
  error = none;
}

-- Finished jobs make room once more than 80 are held.
unfoldable pub create : JobHub → Text → JobHub
create hub id =
    let kept = if ltb max_jobs (length hub) then keep (λ e. not (e.1).done) hub else hub in
    insert id (pending_job id) kept

unfoldable pub get : JobHub → Text → Option JobProgress
get hub id = lookup id hub

-- `saturating_mul`.
unfoldable pub saturating_mul : ℕ → ℕ → ℕ
saturating_mul a b = min (a * b) u64_max

unfoldable pub advance : Text → Text → ℕ → ℕ → JobProgress → JobProgress
unfolding saturating_mul
advance phase message current total job = if job.done then job else record job {
  phase = phase;
  message = message;
  current = current;
  total = total;
  percent = if ltb 0 total then min (saturating_mul current 100 / total) 100 else job.percent;
}

-- A change of the job under an identifier, if there is one.
abbrev pub modify : JobHub → Text → (JobProgress → JobProgress) → JobHub
modify hub id f = elim (lookup id hub) [ none ↦ hub | some job ↦ insert id (f job) hub ]

unfoldable pub set : JobHub → Text → Text → Text → ℕ → ℕ → JobHub
unfolding advance
set hub id phase message current total = modify hub id (advance phase message current total)

unfoldable pub succeed : Text → JobProgress → JobProgress
succeed message job = record job {
  phase = text "done";
  message = message;
  percent = 100;
  done = true;
  error = none;
}

unfoldable pub finish_ok : JobHub → Text → Text → JobHub
unfolding succeed
finish_ok hub id message = modify hub id (succeed message)

unfoldable pub fail : Text → JobProgress → JobProgress
fail error job = record job {
  phase = text "error";
  message = error;
  done = true;
  error = some error;
}

unfoldable pub finish_err : JobHub → Text → Text → JobHub
unfolding fail
finish_err hub id error = modify hub id (fail error)

pub data Call : Type 0 where
  creates : Text → Call
  sets : Text → Text → Text → ℕ → ℕ → Call
  finishes_ok finishes_err : Text → Text → Call

unfoldable pub step : JobHub → Call → JobHub
unfolding create set finish_ok finish_err
step hub (creates id) = create hub id
step hub (sets id phase message current total) = set hub id phase message current total
step hub (finishes_ok id message) = finish_ok hub id message
step hub (finishes_err id error) = finish_err hub id error
