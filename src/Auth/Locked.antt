-- ===== src/Auth/Locked.antt =====
-- A locked account under any number of tries: `login` of src/auth.rs with the guard of src/state.rs.
use mathlib.Core.Option.{some}
use cangling_update.Base.{
  ℕ, ◌≤◌, ◌<◌, true, ◌-◌, ◌/◌, ◌||◌, List, [], ◌∷◌, All, is_empty, lookup, ltb, ◌≡◌, refl, ap, ◌∙◌,
  arith, Bool-cases, Option-cases, inl, inr,
}
use cangling_update.Text.{Text, text, text_is_eq, trim}
use cangling_update.Errors.{AppError, Result, ok, err, bad_request, unauthorized}
use cangling_update.Auth.Guard.{LoginGuard, second, num_seconds, lockout_remaining_secs}
use cangling_update.Auth.Session.{Env, Auth, AuthUser, lockout_text, login}

lockout_remaining_secs_earlier :
    (guard : LoginGuard) (name : Text) (now last left : ℕ)
    → lockout_remaining_secs guard name last ≡ some left
    → now ≤ last
    → (secs : ℕ) × (lockout_remaining_secs guard name now ≡ some secs)
unfolding lockout_remaining_secs
lockout_remaining_secs_earlier guard name now last left h e =
    elim (Option-cases (lookup name guard)) [
      | inl missing ↦ absurd (cc (rw (lockout_remaining_secs, missing) at h))
      | inr (entry, found) ↦ elim (Option-cases entry.locked_until) [
        | inl open' ↦ absurd (cc (rw (lockout_remaining_secs, found, open') at h))
        | inr (until, locked) ↦
            let later = rw (lockout_remaining_secs, found, locked) at h in
            let positive : ltb 0 (num_seconds (until - now)) ≡ true = longer until (ground arith) in
            (num_seconds (until - now), rw (lockout_remaining_secs, found, locked, positive) refl)
      ]
    ]
  where
    longer : (until : ℕ) → 0 < (until - last) / second → ltb 0 (num_seconds (until - now)) ≡ true
    longer until h = ground arith

-- A try: its time, the name and the password as they were typed, and the token that a session would get.
pub record Attempt : Type 0 where
  pub now : ℕ
  pub raw : Text
  pub password : Text
  pub token : Text

-- The state after the tries, and the answers.
unfoldable pub attempts : Env → Auth → List Attempt → Auth × List (Result AuthUser)
unfolding login
attempts env a [] = (a, [])
attempts env a (t ∷ ts) =
    let (after, answer) = login env a t.now t.raw t.password t.token in
    let (end, answers) = attempts env after ts in (end, answer ∷ answers)

abbrev pub IsRefused : Result AuthUser → Type 0
IsRefused (ok u) = ⊥
IsRefused (err e) = Unit {0}

login_refused :
    (env : Env) (a : Auth) (t : Attempt) (secs : ℕ)
    → lockout_remaining_secs a.guard (trim t.raw) t.now ≡ some secs
    → (e : AppError) × (login env a t.now t.raw t.password t.token ≡ (a, err e))
unfolding login
login_refused env a t secs h = elim (Bool-cases (is_empty (trim t.raw) || is_empty t.password)) [
  | inl empty ↦ (bad_request (text "请输入用户名和密码"), rw empty refl)
  | inr given ↦ (unauthorized (lockout_text secs), rw (given, h) refl)
]

-- While a lock still has a second to run, every try on the account is refused, also the right password,
-- however many are made and in whatever order; they change neither the accounts nor the guard, so that
-- the lock is not drawn out.
pub attempts_locked :
    (env : Env) (a : Auth) (name : Text) (last left : ℕ) (ts : List Attempt)
    → lockout_remaining_secs a.guard name last ≡ some left
    → All (λ t. (trim t.raw ≡ name) × (t.now ≤ last)) ts
    → ((attempts env a ts).0 ≡ a) × All IsRefused (attempts env a ts).1
unfolding attempts
attempts_locked env a name last left [] h all = (refl, tt)
attempts_locked env a name last left (t ∷ ts) h all =
    let (secs, locked) = lockout_remaining_secs_earlier a.guard name t.now last left h all.0.1 in
    let (e, refused) =
      login_refused env a t secs
        (ap (λ n. lockout_remaining_secs a.guard n t.now) all.0.0 ∙ locked) in
    let (same, rest) = attempts_locked env a name last left ts h all.1 in
    rw refused (same, (tt, rest))
