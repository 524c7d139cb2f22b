-- ===== src/Tests/Copies.antt =====
-- A project with a daily backup, and its directories.
use mathlib.Core.Option.{some}
use cangling_update.Base.{
  true, false, [], ◌∷◌, List, ◌≡◌, refl, Mem, here, Pairwise, ap, sym, subst,
}
use cangling_update.Text.{
  Text, text, text_eq, parse_unsigned, len, len_utf8, is_ascii_alphanumeric, is_ascii_alphabetic,
  is_ascii_digit,
}
use cangling_update.Errors.{ok}
use cangling_update.Sql.Quote.{is_safe_sql_name}
use cangling_update.Backups.Schedule.{
  BackupSchedule, BackupScheduleBody, Schedules, Clock, RunSchedule, default_schedule,
  validate_time, tick,
}
use cangling_update.Backups.Once.{DayEvent, ticked, saved, on_day, backed_up_once}
use cangling_update.Backups.Due.{Due, tick-Due}
use cangling_update.Backups.Retention.{BackupManifest, Directory, apply_retention}
use cangling_update.Backups.Kept.{Retained, WellNamed, apply_retention-Retained}

abbrev daily : BackupSchedule
daily = record (default_schedule (text "p")) {
  enabled = true;
  service = text "db";
  database = text "main";
}

abbrev schedules : Schedules
schedules = record { rows = daily ∷ []; projects = text "p" ∷ []; storages = [] }

abbrev makes : RunSchedule
makes s = ok (text "b1")

abbrev morning : Clock
morning = record { now = 100; today = text "2026-01-02"; hour = 3; minute = 5 }

abbrev body : BackupScheduleBody
body = record {
  enabled = true;
  service = text "db";
  database = text "main";
  time_of_day = text "04:00";
  retain_count = 3;
  storage_id = [];
  backup_before_update = true;
}

abbrev events : List DayEvent
events = ticked 100 3 5 ∷ saved 101 (text "p") body ∷ ticked 102 4 1 ∷ ticked 103 23 59 ∷ []

backed_up_once_example :
    Pairwise
      (λ a b. text_eq a b ≡ false)
      (on_day makes (text "UNIQUE") (text "2026-01-02") (schedules, []) events).1
backed_up_once_example = backed_up_once makes (text "UNIQUE") (text "2026-01-02") schedules events

daily-Due : Due makes morning (schedules, []) daily
unfolding validate_time parse_unsigned text len len_utf8
daily-Due = record {
  in_table = refl;
  enabled = refl;
  not_yet = refl;
  come = ((3, 0), refl, refl);
  known = refl;
}

tick-Due_example : Mem (text "p") (tick makes morning (schedules, [])).1
tick-Due_example = tick-Due makes morning schedules [] daily (tt, tt) (here refl) daily-Due

abbrev manifest : Text → Text → Text → BackupManifest
manifest id kind created_at = record {
  id = id;
  project_id = text "p";
  service = text "db";
  database = text "main";
  kind = kind;
  created_at = created_at;
  dump_bytes = 10;
  globals_bytes = 5;
  valid = true;
}

abbrev directory : BackupManifest → Directory
directory m = record { name = m.id; manifest = some m; dump = some 10; globals = some 5 }

abbrev one : BackupManifest
one = manifest (text "b1") (text "scheduled") (text "2026-01-01")

abbrev by_hand : BackupManifest
by_hand = manifest (text "b2") (text "manual") (text "2025-01-01")

abbrev two : BackupManifest
two = manifest (text "b3") (text "scheduled") (text "2026-01-02")

abbrev directories : List Directory
directories = directory one ∷ directory by_hand ∷ directory two ∷ []

directory-WellNamed : (m : BackupManifest) → is_safe_sql_name m.id ≡ true → WellNamed (directory m)
directory-WellNamed m safe n same =
    let alike : m ≡ n = cc same in
    (ap (λ k. k.id) (sym alike), subst (λ k. is_safe_sql_name k.id ≡ true) alike safe)

apply_retention-Retained_example :
    ((apply_retention directories (text "p") (text "db") (text "main") 1).1 ≡ ok tt)
    × Retained directories
        (apply_retention directories (text "p") (text "db") (text "main") 1).0
        (text "db")
        (text "main")
        1
unfolding text is_safe_sql_name len len_utf8 is_ascii_alphanumeric is_ascii_alphabetic
    is_ascii_digit
apply_retention-Retained_example =
    apply_retention-Retained directories (text "p") (text "db") (text "main") 1 refl
      (
        directory-WellNamed one refl,
        (directory-WellNamed by_hand refl, (directory-WellNamed two refl, tt)),
      )
      ((refl, (refl, tt)), ((refl, tt), (tt, tt)))
