-- ===== src/Errors.antt =====
-- src/error.rs: the error of the HTTP handlers, with the status code that it is answered with.
use cangling_update.Base.{subst, ℕ, ◌≡◌, refl, Bool, true, false, ◌⊎◌, inl, inr}
use cangling_update.Text.{Text}

pub data AppError : Type 0 where
  bad_request not_found conflict unauthorized internal : Text → AppError

-- `AppError::into_response`: the status line and the text of the JSON body.
unfoldable pub into_response : AppError → ℕ × Text
into_response (bad_request m) = (400, m)
into_response (not_found m) = (404, m)
into_response (conflict m) = (409, m)
into_response (unauthorized m) = (401, m)
into_response (internal m) = (500, m)

pub data Result {ℓ} (T : Type ℓ) : Type ℓ where
  err : AppError → Result T
  ok : T → Result T

infixl 5 ◌>>=◌ ◌>>◌
-- The operator `?`: an error ends the block.
abbrev pub ◌>>=◌ {ℓ κ} : {T : Type ℓ} {U : Type κ} → Result T → (T → Result U) → Result U
err e >>= rest = err e
ok x >>= rest = rest x

abbrev pub ◌>>◌ {κ} : {U : Type κ} → Result (Unit {0}) → Result U → Result U
check >> rest = check >>= λ done. rest

-- `if test { return Err(e) }`.
abbrev pub refuse_if : Bool → AppError → Result (Unit {0})
refuse_if true e = err e
refuse_if false e = ok tt

-- A block that ended well had a first part that did.
pub >>=-eq-ok {ℓ κ} :
    {T : Type ℓ} {U : Type κ} (first : Result T) (rest : T → Result U) {y : U}
    → (first >>= rest) ≡ ok y
    → (x : T) × (first ≡ ok x) × (rest x ≡ ok y)
>>=-eq-ok (err e) rest done = absurd (cc done)
>>=-eq-ok (ok x) rest done = (x, refl, done)

pub Result-cases {ℓ} :
    {A : Type ℓ} (r : Result A) → ((a : A) × (r ≡ ok a)) ⊎ ((e : AppError) × (r ≡ err e))
Result-cases (ok a) = inl (a, refl)
Result-cases (err e) = inr (e, refl)

-- What holds of the value of one `ok` holds of the other's.
pub ok-subst {ℓ κ} : {A : Type ℓ} (P : A → Type κ) {a b : A} → ok a ≡ ok b → P a → P b
ok-subst P {a} {b} h x = let same : a ≡ b = cc h in subst P same x

-- A check that was passed, and the rest of the block.
pub refuse_if-then {ℓ} :
    {B : Type ℓ} (b : Bool) (e : AppError) (k : Result B) {x : B}
    → refuse_if b e >> k ≡ ok x
    → (b ≡ false) × (k ≡ ok x)
refuse_if-then true e k h = absurd (cc)
refuse_if-then false e k h = (refl, h)

pub check-then {ℓ} :
    {B : Type ℓ} (m : Result (Unit {0})) (k : Result B) {x : B}
    → m >> k ≡ ok x
    → (m ≡ ok tt) × (k ≡ ok x)
check-then (ok u) k h = (refl, h)
check-then (err e) k h = absurd (cc)
