-- ===== src/Auth/Locking.antt =====
-- When the guard locks an account, and what the lock does to the counter.
use cangling_update.Base.{
  ℕ, ◌+◌, ◌-◌, ◌*◌, ◌/◌, ◌≤◌, ◌<◌, none, some, leb, if◌then◌else◌, lookup, get_or, ◌≡◌, refl, arith,
  lookup-insert_self, lookup-insert_ne, lookup-remove, false,
}
use cangling_update.Text.{Text, text_is_eq, text_eq}
use cangling_update.Auth.Guard.{
  second, login_lock_secs, default_entry, LoginGuard, lockout_remaining_secs, fail_entry,
  record_failure, clear,
}

lookup-record_failure :
    (guard : LoginGuard) (u : Text) (now : ℕ)
    → lookup u (record_failure guard u now)
      ≡ some (fail_entry now (get_or (lookup u guard) default_entry))
unfolding record_failure
lookup-record_failure guard u now = lookup-insert_self u _ guard

lookup-record_failure_ne :
    (guard : LoginGuard) (u v : Text) (now : ℕ)
    → text_eq u v ≡ false
    → lookup v (record_failure guard u now) ≡ lookup v guard
unfolding record_failure
lookup-record_failure_ne guard u v now h = lookup-insert_ne u v _ guard h

-- Failures at three instants from a clean entry.
abbrev pub after_two : LoginGuard → Text → ℕ → ℕ → LoginGuard
after_two guard u t1 t2 = record_failure (record_failure guard u t1) u t2

-- With no entry for an account, two failures leave it open, and the third locks it until 180 seconds
-- after that failure: it is refused at each instant up to one second before the end, with the whole
-- seconds that remain, and open from one second before the end on.
pub third_failure_locks :
    (guard : LoginGuard) (u : Text) (t1 t2 t3 now : ℕ)
    → lookup u guard ≡ none
    → (lockout_remaining_secs (after_two guard u t1 t2) u now ≡ none)
      × (lockout_remaining_secs (record_failure (after_two guard u t1 t2) u t3) u now ≡ (
          if leb (now + second) (t3 + login_lock_secs * second)
          then some ((t3 + login_lock_secs * second - now) / second)
          else none))
unfolding lockout_remaining_secs fail_entry
third_failure_locks guard u t1 t2 t3 now h =
    rw
      (
        lookup-record_failure (after_two guard u t1 t2) u t3,
        lookup-record_failure (record_failure guard u t1) u t2,
        lookup-record_failure guard u t1,
        h,
      )
      (refl, ground arith)

-- A failed login of one account changes nothing for another.
pub record_failure_separate :
    (guard : LoginGuard) (u v : Text) (t now : ℕ)
    → text_eq u v ≡ false
    → (lockout_remaining_secs (record_failure guard u t) v now ≡ lockout_remaining_secs guard v now)
      × (lookup v (clear guard u) ≡ lookup v guard)
unfolding lockout_remaining_secs clear
record_failure_separate guard u v t now h =
    (rw (lookup-record_failure_ne guard u v t h), rw (lookup-remove u v guard, h))

-- In the last second of its lock an account counts as open though the lock is still on, and the
-- failures counted then are dropped by the first failure after the lock's end.
pub last_second_open :
    (guard : LoginGuard) (u : Text) (until now later : ℕ)
    → lookup u guard ≡ some (record { failures = 0; locked_until = some until })
    → now < until
    → until < now + second
    → until ≤ later
    → (lockout_remaining_secs guard u now ≡ none)
      × (lookup u (record_failure (after_two guard u now now) u later)
          ≡ some (record { failures = 1; locked_until = none }))
unfolding lockout_remaining_secs fail_entry
last_second_open guard u until now later e h k l =
    rw
      (
        lookup-record_failure (after_two guard u now now) u later,
        lookup-record_failure (record_failure guard u now) u now,
        lookup-record_failure guard u now,
        e,
      )
      (ground arith, ground arith)
