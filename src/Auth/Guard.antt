-- ===== src/Auth/Guard.antt =====
-- `LoginGuard` of src/state.rs. An instant is a number of nanoseconds since the epoch; the mutex is
-- never poisoned, so a call is one step on the map.
use cangling_update.Base.{
  ℕ, ◌+◌, ◌-◌, ◌*◌, ◌/◌, Option, none, some, ltb, leb, if◌then◌else◌, Map, lookup, insert, remove,
  get_or, ◌>>=◌,
}
use cangling_update.Text.{Text, text_is_eq}

abbrev pub second : ℕ
second = 1000000000

abbrev pub max_login_failures : ℕ
max_login_failures = 3

abbrev pub login_lock_secs : ℕ
login_lock_secs = 3 * 60

pub record LoginEntry : Type 0 where
  pub failures : ℕ
  pub locked_until : Option ℕ

abbrev pub default_entry : LoginEntry
default_entry = record { failures = 0; locked_until = none }

abbrev pub LoginGuard : Type 0
LoginGuard = Map Text LoginEntry

-- Whole seconds of a duration that is not negative; a negative one counts as 0, which fails the
-- test `remaining > 0` alike.
abbrev pub num_seconds : ℕ → ℕ
num_seconds d = d / second

unfoldable pub lockout_remaining_secs : LoginGuard → Text → ℕ → Option ℕ
lockout_remaining_secs guard username now = do
  entry ← lookup username guard
  until ← entry.locked_until
  let remaining = num_seconds (until - now)
  if ltb 0 remaining then some remaining else none

-- A lock that has run out is taken off, and the count starts again.
unfoldable pub expire : ℕ → LoginEntry → LoginEntry
expire now entry = elim entry.locked_until [
  | none ↦ entry
  | some until ↦ if leb until now then record entry { locked_until = none; failures = 0 } else entry
]

unfoldable pub count_failure : ℕ → LoginEntry → LoginEntry
count_failure now entry =
    let failures : ℕ = entry.failures + 1 in
    if leb max_login_failures failures
    then record { failures = 0; locked_until = some (now + login_lock_secs * second) }
    else record entry { failures = failures }

unfoldable pub fail_entry : ℕ → LoginEntry → LoginEntry
unfolding expire count_failure
fail_entry now entry = count_failure now (expire now entry)

unfoldable pub record_failure : LoginGuard → Text → ℕ → LoginGuard
record_failure guard username now =
    insert username (fail_entry now (get_or (lookup username guard) default_entry)) guard

unfoldable pub clear : LoginGuard → Text → LoginGuard
clear guard username = remove username guard
