-- ===== src/Backups/Schedule.antt =====
-- The table `db_backup_schedules` of src/dbbackup.rs and what changes it. A project has one row; the row
-- goes with the project. The dates are texts as the code formats them; times are numbers.
use mathlib.Core.Option.{Option, none, some}
use cangling_update.Base.{
  ℕ, ◌^◌, Bool, true, false, not, ◌&&◌, ◌||◌, ◌==◌, List, [], ◌∷◌, ◌++◌, ltb, if◌then◌else◌,
  is_empty, any, keep, find, map, get_or,
}
use cangling_update.Text.{Text, text, text_eq, trim, split_once, parse_unsigned, len}
use cangling_update.Errors.{
  Result, ok, err, bad_request, internal, refuse_if, into_response, ◌>>=◌, ◌>>◌,
}
use cangling_update.Docker.{validate_service_name}
use cangling_update.Sql.Quote.{quote_ident}

pub record BackupSchedule : Type 0 where
  pub project_id : Text
  pub enabled : Bool
  pub service : Text
  pub database : Text
  pub time_of_day : Text
  pub retain_count : ℕ
  pub storage_id : Text
  pub backup_before_update : Bool
  pub last_run_date : Text
  pub last_started_at : Option ℕ
  pub last_finished_at : Option ℕ
  pub last_status : Text
  pub last_message : Text
  pub updated_at : Option ℕ

pub record BackupScheduleBody : Type 0 where
  pub enabled : Bool
  pub service : Text
  pub database : Text
  pub time_of_day : Text
  pub retain_count : ℕ
  pub storage_id : Text
  pub backup_before_update : Bool

-- The table, with the identifiers of the projects and storages that there are.
pub record Schedules : Type 0 where
  pub rows : List BackupSchedule
  pub projects : List Text
  pub storages : List Text

abbrev some_or {ℓ} : {A : Type ℓ} → Text → Option A → Result A
some_or e none = err (bad_request e)
some_or e (some a) = ok a

unfoldable pub validate_time : Text → Result (ℕ × ℕ)
unfolding parse_unsigned
validate_time value = some_or (text "备份时间格式必须为 HH:MM") (split_once b':' value) >>= λ halves.
    some_or (text "无效的备份小时") (parse_unsigned (2 ^ 32) halves.0) >>= λ hour.
    some_or (text "无效的备份分钟") (parse_unsigned (2 ^ 32) halves.1) >>= λ minute.
    refuse_if (ltb 23 hour || ltb 59 minute || not (len value == 5))
      (bad_request (text "备份时间必须介于 00:00 和 23:59"))
    >> ok (hour, minute)

abbrev pub is_of : Text → BackupSchedule → Bool
is_of id s = text_eq s.project_id id

abbrev pub default_schedule : Text → BackupSchedule
default_schedule project_id = record {
  project_id = project_id;
  enabled = false;
  service = [];
  database = [];
  time_of_day = text "03:00";
  retain_count = 7;
  storage_id = [];
  backup_before_update = true;
  last_run_date = [];
  last_started_at = none;
  last_finished_at = none;
  last_status = [];
  last_message = [];
  updated_at = none;
}

unfoldable pub get_schedule : Schedules → Text → BackupSchedule
get_schedule db project_id = get_or (find (is_of project_id) db.rows) (default_schedule project_id)

abbrev pub as_bad {ℓ} : {A : Type ℓ} → Result A → Result A
as_bad (err e) = err (bad_request (into_response e).1)
as_bad (ok a) = ok a

abbrev pub rewritten : BackupScheduleBody → ℕ → BackupSchedule → BackupSchedule
rewritten body now s = record s {
  enabled = body.enabled;
  service = trim body.service;
  database = trim body.database;
  time_of_day = body.time_of_day;
  retain_count = body.retain_count;
  storage_id = body.storage_id;
  backup_before_update = body.backup_before_update;
  updated_at = some now;
}

-- INSERT … ON CONFLICT DO UPDATE; what is known of the last run stays.
abbrev pub upsert : Text → BackupScheduleBody → ℕ → List BackupSchedule → List BackupSchedule
upsert id body now [] = rewritten body now (default_schedule id) ∷ []
upsert id body now (s ∷ rows) =
    let rest = upsert id body now rows in
    if is_of id s then rewritten body now s ∷ rows else s ∷ rest

abbrev check_service : BackupScheduleBody → Result (Unit {0})
check_service body =
    if is_empty body.service then ok tt else as_bad (validate_service_name body.service)

abbrev check_database : BackupScheduleBody → Result (Unit {0})
check_database body =
    if is_empty body.database then ok tt else quote_ident body.database >>= λ quoted. ok tt

unfoldable pub check_body : Schedules → BackupScheduleBody → Result (Unit {0})
unfolding validate_time validate_service_name quote_ident
check_body db body = validate_time body.time_of_day >>= λ time.
    refuse_if (body.retain_count == 0 || ltb 365 body.retain_count)
      (bad_request (text "定时备份保留份数必须介于 1 和 365"))
    >> (refuse_if (body.enabled && (is_empty (trim body.service) || is_empty (trim body.database)))
          (bad_request (text "启用自动备份前必须选择 PostgreSQL 容器和数据库"))
        >> (check_service body
            >> (check_database body
                >> refuse_if
                    (not (is_empty body.storage_id)
                      && not (any (λ s. text_eq s body.storage_id) db.storages))
                    (bad_request (text "选择的存储不存在")))))

-- The project of the row must be there.
unfoldable pub save_schedule :
    Text → Schedules → ℕ → Text → BackupScheduleBody → Result (Schedules × BackupSchedule)
unfolding check_body get_schedule
save_schedule conflict_text db now project_id body =
    let db' : Schedules = record db { rows = upsert project_id body now db.rows } in
    check_body db body
    >> (if any (λ p. text_eq p project_id) db.projects
        then ok (db', get_schedule db' project_id)
        else err (internal conflict_text))

abbrev pub enabled_schedules : Schedules → List BackupSchedule
enabled_schedules db = keep (λ s. s.enabled) db.rows

abbrev pub change : Text → (BackupSchedule → BackupSchedule) → BackupSchedule → BackupSchedule
change id f s = if is_of id s then f s else s

abbrev pub started : Text → ℕ → Text → Text → BackupSchedule → BackupSchedule
started run_date now status message s = record s {
  last_run_date = run_date;
  last_started_at = some now;
  last_finished_at = none;
  last_status = status;
  last_message = message;
}

abbrev pub finished : ℕ → Text → Text → BackupSchedule → BackupSchedule
finished now status message s = record s {
  last_finished_at = some now;
  last_status = status;
  last_message = message;
}

-- `set_run_status`, at the start and at the end of a run.
unfoldable pub set_started : Schedules → ℕ → Text → Text → Text → Text → Schedules
set_started db now id run_date status message = record db {
  rows = map (change id (started run_date now status message)) db.rows;
}

unfoldable pub set_finished : Schedules → ℕ → Text → Text → Text → Schedules
set_finished db now id status message = record db {
  rows = map (change id (finished now status message)) db.rows;
}

abbrev interrupted : ℕ → BackupSchedule → BackupSchedule
interrupted now s =
    if text_eq s.last_status (text "running")
    then record s {
      last_run_date = [];
      last_finished_at = some now;
      last_status = text "failed";
      last_message = text "上一次自动备份因程序重启而中断";
    }
    else s

-- What the scheduler does first after a start of the program.
unfoldable pub recover : Schedules → ℕ → Schedules
recover db now = record db { rows = map (interrupted now) db.rows }

-- A moment of the local clock.
pub record Clock : Type 0 where
  pub now : ℕ
  pub today : Text
  pub hour : ℕ
  pub minute : ℕ

abbrev pub before_time : Clock → ℕ × ℕ → Bool
before_time c t = ltb c.hour t.0 || c.hour == t.0 && ltb c.minute t.1

-- The identifier of the backup, or what went wrong.
abbrev pub RunSchedule : Type 0
RunSchedule = BackupSchedule → Result Text

abbrev pub close : Schedules → ℕ → Text → Result Text → Schedules
close db now id (ok backup) = set_finished db now id (text "success") (text "备份完成：" ++ backup)
close db now id (err e) = set_finished db now id (text "failed") (into_response e).1

-- One schedule at a tick, and the projects that a backup was made for.
unfoldable pub visit :
    RunSchedule → Clock → BackupSchedule → Schedules × List Text → Schedules × List Text
unfolding validate_time get_schedule set_started set_finished
visit run c schedule (db, log) = elim (validate_time schedule.time_of_day) [
  | err e ↦ (db, log)
  | ok time ↦
      if text_eq schedule.last_run_date c.today || before_time c time
      then (db, log)
      else if not (any (λ p. text_eq p schedule.project_id) db.projects)
      then (db, log)
      else let current = get_schedule db schedule.project_id in
        if not current.enabled || text_eq current.last_run_date c.today
        then (db, log)
        else let running =
            set_started db c.now schedule.project_id c.today (text "running") (text "自动备份正在执行") in
          (close running c.now schedule.project_id (run current), log ++ schedule.project_id ∷ [])
]

abbrev pub visit_all :
    RunSchedule → Clock → List BackupSchedule → Schedules × List Text → Schedules × List Text
visit_all run c [] st = st
visit_all run c (s ∷ ss) st = visit_all run c ss (visit run c s st)

-- A tick of the scheduler.
unfoldable pub tick : RunSchedule → Clock → Schedules × List Text → Schedules × List Text
unfolding visit
tick run c st = visit_all run c (enabled_schedules st.0) st
