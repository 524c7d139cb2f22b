-- ===== src/Tests/Accounts.antt =====
-- Accounts, sessions and the login guard at work.
use cangling_update.Base.{
  All, ℕ, true, false, List, [], ◌∷◌, none, some, ◌≡◌, refl, arith, ◌*◌, ◌+◌, ◌-◌, ◌/◌, ◌<◌, lookup,
  remove, if◌then◌else◌, leb,
}
use cangling_update.Text.{Text, text, text_eq, text_is_eq, trim, trim_matches, is_whitespace}
use cangling_update.Errors.{ok}
use cangling_update.Auth.Guard.{
  second, login_lock_secs, LoginGuard, LoginEntry, lockout_remaining_secs, record_failure, clear,
}
use cangling_update.Auth.Lockout.{GuardEvent, failed, run, AtMost, lockout_bounded}
use cangling_update.Auth.Locking.{third_failure_locks, after_two}
use cangling_update.Auth.Tables.{
  Db, UserRow, get_user_by_id, get_user_by_name, session_user_id, touch_session, delete_session,
  create_session, update_password_hash, delete_sessions_for_user,
}
use cangling_update.Auth.Tokens.{Headers, read_token}
use cangling_update.Auth.Session.{
  Env, Auth, AuthUser, SessionUser, current_user, idle_timeout_secs, login, change_password,
  session_expired, check_password,
}
use cangling_update.Auth.Session.{setup, setup_check, setup_store, first_user}
use cangling_update.Auth.Tables.{user_count, insert_user}
use cangling_update.Auth.Tokens.{normalize_username}
use cangling_update.Text.{len, is_ascii_alphanumeric}
use cangling_update.Auth.Setup.{setup-ok, setup_race}
use cangling_update.Auth.Stored.{DbInv}
use cangling_update.Auth.Handlers.{
  AuthRequest, logs_in, changes_password, logs_out, takes_over, resets_password, opens_session,
  starts, handle_all, handle_all-DbInv,
}
use cangling_update.Auth.Locked.{Attempt, attempts, IsRefused, attempts_locked}
use cangling_update.Auth.Access.{
  current_user-some, current_user_idle, change_password_ends_sessions, login-ok,
}

abbrev admin : Text
admin = text "admin"

abbrev three_failures : List (ℕ × GuardEvent)
three_failures =
    (1 * second, failed admin) ∷ (2 * second, failed admin) ∷ (3 * second, failed admin) ∷ []

lockout_bounded_example :
    AtMost login_lock_secs (lockout_remaining_secs (run [] three_failures) admin (10 * second))
lockout_bounded_example = lockout_bounded three_failures (10 * second) admin (omega arith)

third_failure_locks_example :
    (lockout_remaining_secs (after_two [] admin 0 0) admin (5 * second) ≡ none)
    × (lockout_remaining_secs (record_failure (after_two [] admin 0 0) admin 0) admin (5 * second)
        ≡ (if leb (5 * second + second) (0 + login_lock_secs * second)
            then some ((0 + login_lock_secs * second - 5 * second) / second)
            else none))
third_failure_locks_example =
    third_failure_locks [] admin 0 0 0 (5 * second) (unfold lookup in refl)

abbrev locked_guard : LoginGuard
locked_guard = (admin, record { failures = 0; locked_until = some (180 * second) }) ∷ []

-- A node with one account, whose hash is its password, and one session used at time 0.
abbrev env : Env
env = record {
  verify_password = text_eq;
  hash_password = λ p. p;
  validate_password = λ p. ok tt;
  conflict_text = text "constraint failed";
}

abbrev accounts : Db
accounts = record {
  users = record { id = text "u1"; username = admin; password_hash = text "secret" } ∷ [];
  sessions = record { token = text "t1"; user_id = text "u1"; last_seen = 0; created_at = 0 } ∷ [];
}

abbrev node : Auth
node = record { db = accounts; guard = [] }

abbrev bearer_t1 : Headers
bearer_t1 = record { authorization = some (text "Bearer t1"); cookie = none }

abbrev admin_user : SessionUser
admin_user = record { id = text "u1"; username = admin }

current_user-some_example :
    (id : Text) × (seen : ℕ) × (row : UserRow) × (session_user_id accounts (text "t1")
      ≡ some (id, seen))
    × ((5 * second - seen) / second < idle_timeout_secs)
    × (get_user_by_id accounts id ≡ some row)
    × (admin_user ≡ record { id = row.id; username = row.username })
    × (session_user_id (touch_session accounts (5 * second) (text "t1")) (text "t1")
        ≡ some (id, 5 * second))
    × (touch_session accounts (5 * second) (text "t1")
        ≡ touch_session accounts (5 * second) (text "t1"))
current_user-some_example =
    current_user-some accounts (touch_session accounts (5 * second) (text "t1")) (5 * second)
      (text "t1") admin_user
      (unfold current_user session_user_id session_expired get_user_by_id touch_session text in
        refl)

current_user_idle_example :
    (current_user accounts (7200 * second) (some (text "t1"))
      ≡ (delete_session accounts (text "t1"), none))
    × ((later : ℕ)
        → current_user (delete_session accounts (text "t1")) later (some (text "t1"))
          ≡ (delete_session accounts (text "t1"), none))
current_user_idle_example =
    current_user_idle accounts (7200 * second) (text "t1") (text "u1") 0 (unfold text in refl)
      (unfold session_user_id text in refl) (omega arith)

-- The right password is among the tries.
abbrev tries : List Attempt
tries =
    record { now = second; raw = text " admin "; password = text "secret"; token = text "t3" }
    ∷ record { now = 100 * second; raw = admin; password = text "guess"; token = text "t4" }
    ∷ []

abbrev locked_node : Auth
locked_node = record { db = accounts; guard = locked_guard }

attempts_locked_example :
    ((attempts env locked_node tries).0 ≡ locked_node)
    × All IsRefused (attempts env locked_node tries).1
attempts_locked_example =
    attempts_locked env locked_node admin (170 * second) 10 tries
      (unfold lockout_remaining_secs lookup text in refl)
      (
        (unfold trim_matches is_whitespace text in refl, omega arith),
        ((unfold trim_matches is_whitespace text in refl, omega arith), tt),
      )

abbrev changed : Db
changed =
    delete_sessions_for_user
      (update_password_hash (touch_session accounts second (text "t1")) (text "u1") (text "new")).0
      (text "u1")

change_password_ends_sessions_example :
    ((current_user accounts second (read_token bearer_t1)).1 ≡ some admin_user)
    × (env.validate_password (text "new") ≡ ok tt)
    × ((row : UserRow) × (get_user_by_id
            (current_user accounts second (read_token bearer_t1)).0
            (text "u1")
          ≡ some row)
        × (env.verify_password (text "secret") row.password_hash ≡ true))
    × ((token uid : Text) (seen : ℕ)
        → session_user_id changed token ≡ some (uid, seen)
        → text_eq uid (text "u1") ≡ false)
change_password_ends_sessions_example =
    change_password_ends_sessions env accounts changed second bearer_t1 (text "secret") (text "new")
      admin_user
      (unfold change_password current_user read_token session_user_id session_expired get_user_by_id
          touch_session update_password_hash delete_sessions_for_user trim_matches is_whitespace
          text in
        refl)

abbrev logged_in : Auth
logged_in = record {
  db = record accounts {
    sessions =
        record { token = text "t1"; user_id = text "u1"; last_seen = 0; created_at = 0 }
        ∷ record { token = text "t2"; user_id = text "u1"; last_seen = second; created_at = second }
        ∷ [];
  };
  guard = [];
}

abbrev answer : AuthUser
answer = record { id = text "u1"; username = admin; token = text "t2" }

login-ok_example :
    (user : UserRow) × (lockout_remaining_secs [] (trim admin) second ≡ none)
    × (get_user_by_name accounts (trim admin) ≡ some user)
    × (text_eq (text "secret") user.password_hash ≡ true)
    × (session_user_id logged_in.db (text "t2") ≡ some (user.id, second))
    × (lookup {V = LoginEntry} (trim admin) [] ≡ none)
    × (answer ≡ record { id = user.id; username = user.username; token = text "t2" })
login-ok_example = login-ok env node logged_in second admin (text "secret") (text "t2") answer (
    unfold login check_password lockout_remaining_secs lookup get_user_by_name create_session clear
      remove trim_matches is_whitespace text in
    refl)

abbrev fresh_node : Auth
fresh_node = record { db = record { users = []; sessions = [] }; guard = [] }

abbrev set_up : Auth
set_up = record {
  db = record accounts {
    sessions =
        record { token = text "t1"; user_id = text "u1"; last_seen = second; created_at = second }
        ∷ [];
  };
  guard = [];
}

setup-ok_example :
    (user_count fresh_node.db ≡ 0)
    × (normalize_username (text " admin ") ≡ ok admin)
    × (env.validate_password (text "secret") ≡ ok tt)
    × (session_user_id set_up.db (text "t1") ≡ some (text "u1", second))
    × (get_user_by_name set_up.db admin
        ≡ some (record { id = text "u1"; username = admin; password_hash = text "secret" }))
setup-ok_example =
    setup-ok env fresh_node set_up second (text " admin ") (text "secret") (text "u1") (text "t1")
      (record { id = text "u1"; username = admin; token = text "t1" })
      (unfold setup first_user setup_check setup_store normalize_username user_count insert_user
          create_session len is_ascii_alphanumeric trim_matches is_whitespace text in
        refl)

setup_race_example :
    (db1 db2 : Db) × (setup_store env fresh_node.db admin (text "secret") (text "u1") ≡ ok db1)
    × (setup_store env db1 (text "other") (text "secret") (text "u2") ≡ ok db2)
    × (user_count db2 ≡ 2)
setup_race_example =
    setup_race env fresh_node.db admin (text "other") (text "secret") (text "secret") admin
      (text "other") (text "u1") (text "u2")
      (unfold setup_check normalize_username user_count len is_ascii_alphanumeric trim_matches
          is_whitespace text in
        refl)
      (unfold setup_check normalize_username user_count len is_ascii_alphanumeric trim_matches
          is_whitespace text in
        refl)
      (unfold text in refl) (unfold text in refl)

accounts-DbInv : DbInv accounts
unfolding text
accounts-DbInv = record { users = (tt, tt); sessions = (tt, tt); owned = (refl, tt) }

abbrev requests : List (ℕ × AuthRequest)
requests =
    (second, logs_in admin (text "secret") (text "t2"))
    ∷ (2 * second, changes_password bearer_t1 (text "secret") (text "new"))
    ∷ (3 * second, logs_out bearer_t1)
    ∷ (4 * second, takes_over (text "ops") (text "hash") (text "u9"))
    ∷ (5 * second, resets_password (some admin) (text "new"))
    ∷ (6 * second, opens_session (some (text "ops")) (text "t9"))
    ∷ (7 * second, starts none (text "u8"))
    ∷ []

handle_all-DbInv_example : DbInv (handle_all env node requests).db
handle_all-DbInv_example = handle_all-DbInv env node requests accounts-DbInv
