-- ===== src/Auth/Lockout.antt =====
-- The lock after repeated failures: what it counts, when it holds, and that it ends.
use cangling_update.Base.{
  ℕ, ◌+◌, ◌*◌, ◌≤◌, ◌<◌, Option, none, some, lookup, get_or, arith, lookup-insert, lookup-remove,
  List, [], ◌∷◌, Bool-cases, inl, inr,
}
use cangling_update.Text.{Text, text_is_eq, text_eq}
use cangling_update.Auth.Guard.{
  second, max_login_failures, login_lock_secs, LoginEntry, default_entry, LoginGuard,
  lockout_remaining_secs, fail_entry, record_failure, clear,
}

abbrev EndsBy : Option ℕ → ℕ → Type 0
EndsBy none b = Unit {0}
EndsBy (some t) b = t ≤ b

-- Fewer failures are counted than lock an account, and no lock reaches further than its full time.
pub record IsBounded (now : ℕ) (entry : LoginEntry) : Type 0 where
  pub few : entry.failures < max_login_failures
  pub short : EndsBy entry.locked_until (now + login_lock_secs * second)

fail_entry-IsBounded :
    (now later : ℕ) (entry : LoginEntry)
    → IsBounded now entry
    → now ≤ later
    → IsBounded later (fail_entry later entry)
unfolding fail_entry
fail_entry-IsBounded now later entry b h = ground (arith, b.few, b.short)

IsBounded-mono :
    (now later : ℕ) (entry : LoginEntry) → IsBounded now entry → now ≤ later → IsBounded later entry
IsBounded-mono now later entry b h = ground (arith, b.few, b.short)

-- Every entry of the guard is bounded.
abbrev EntryInv : ℕ → Option LoginEntry → Type 0
EntryInv now none = Unit {0}
EntryInv now (some e) = IsBounded now e

abbrev pub GuardInv : ℕ → LoginGuard → Type 0
GuardInv now guard = (u : Text) → EntryInv now (lookup u guard)

pub data GuardEvent : Type 0 where
  failed cleared : Text → GuardEvent

pub step : LoginGuard → ℕ × GuardEvent → LoginGuard
step guard (now, failed u) = record_failure guard u now
step guard (now, cleared u) = clear guard u

pub run : LoginGuard → List (ℕ × GuardEvent) → LoginGuard
run guard [] = guard
run guard (e ∷ es) = run (step guard e) es

-- The instants of a history do not go back, and none is past `now`.
abbrev pub InOrder : ℕ → List (ℕ × GuardEvent) → ℕ → Type 0
InOrder start [] now = start ≤ now
InOrder start ((t, e) ∷ es) now = (start ≤ t) × InOrder t es now

EntryInv-mono :
    (now later : ℕ) (o : Option LoginEntry) → EntryInv now o → now ≤ later → EntryInv later o
EntryInv-mono now later none b h = tt
EntryInv-mono now later (some e) b h = IsBounded-mono now later e b h

old-IsBounded :
    (now : ℕ) (o : Option LoginEntry) → EntryInv now o → IsBounded now (get_or o default_entry)
old-IsBounded now none b = omega arith
old-IsBounded now (some e) b = b

record_failure-GuardInv :
    (start now : ℕ) (guard : LoginGuard) (u : Text)
    → GuardInv start guard
    → start ≤ now
    → GuardInv now (record_failure guard u now)
unfolding record_failure
record_failure-GuardInv start now guard u inv h v =
    rw lookup-insert (elim (Bool-cases (text_eq u v)) [
      | inl same ↦
          rw same
            (fail_entry-IsBounded start now _ (old-IsBounded start (lookup u guard) (inv u)) h)
      | inr other ↦ rw other (EntryInv-mono start now (lookup v guard) (inv v) h)
    ])

clear-GuardInv :
    (now : ℕ) (guard : LoginGuard) (u : Text) → GuardInv now guard → GuardInv now (clear guard u)
unfolding clear
clear-GuardInv now guard u inv v =
    rw lookup-remove
      (elim (Bool-cases (text_eq u v)) [ inl same ↦ rw same tt | inr other ↦ rw other (inv v) ])

step-GuardInv :
    (start now : ℕ) (guard : LoginGuard) (e : GuardEvent)
    → GuardInv start guard
    → start ≤ now
    → GuardInv now (step guard (now, e))
unfolding step
step-GuardInv start now guard (failed u) inv h = record_failure-GuardInv start now guard u inv h
step-GuardInv start now guard (cleared u) inv h =
    clear-GuardInv now guard u (λ v. EntryInv-mono start now (lookup v guard) (inv v) h)

run-GuardInv :
    (start now : ℕ) (guard : LoginGuard) (es : List (ℕ × GuardEvent))
    → GuardInv start guard
    → InOrder start es now
    → GuardInv now (run guard es)
unfolding run
run-GuardInv start now guard [] inv h = λ v. EntryInv-mono start now (lookup v guard) (inv v) h
run-GuardInv start now guard ((t, e) ∷ es) inv h =
    run-GuardInv t now (step guard (t, e)) es (step-GuardInv start t guard e inv h.0) h.1

abbrev pub AtMost : ℕ → Option ℕ → Type 0
AtMost n none = Unit {0}
AtMost n (some r) = (0 < r) × (r ≤ n)

remaining-AtMost :
    (now : ℕ) (guard : LoginGuard) (u : Text)
    → EntryInv now (lookup u guard)
    → AtMost login_lock_secs (lockout_remaining_secs guard u now)
unfolding lockout_remaining_secs
remaining-AtMost now guard u inv = ground arith

-- Whatever logins have failed or passed since the start, in whatever order, an account that is locked
-- can be tried again after at least one and at most 180 seconds.
pub lockout_bounded :
    (es : List (ℕ × GuardEvent)) (now : ℕ) (u : Text)
    → InOrder 0 es now
    → AtMost login_lock_secs (lockout_remaining_secs (run [] es) u now)
lockout_bounded es now u h =
    remaining-AtMost now (run [] es) u (run-GuardInv 0 now [] es (λ v. unfold lookup in tt) h u)
