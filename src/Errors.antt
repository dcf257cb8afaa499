-- ===== src/Errors.antt =====
-- common/errors.py: the error codes, the HTTP status of each, and the results of code that may
-- raise. An `AppError` is an `app` failure; the other failures are Python's own exceptions.
use slope_monitoring.Common.{arith, ap, ℕ, Bool, true, false, ◌≡◌, refl, ◌⊎◌, inl, inr}

pub data ErrorCode : Type 0 where
  invalid_device_id missing_header invalid_csv invalid_base64 : ErrorCode
  invalid_credentials token_expired token_invalid unauthenticated : ErrorCode
  forbidden_role not_found conflict validation_error : ErrorCode
  model_incompatible internal_error : ErrorCode

unfoldable pub status_for : ErrorCode → ℕ
status_for ErrorCode.invalid_device_id = 403
status_for ErrorCode.missing_header = 400
status_for ErrorCode.invalid_csv = 400
status_for ErrorCode.invalid_base64 = 400
status_for ErrorCode.invalid_credentials = 401
status_for ErrorCode.token_expired = 401
status_for ErrorCode.token_invalid = 401
status_for ErrorCode.unauthenticated = 401
status_for ErrorCode.forbidden_role = 403
status_for ErrorCode.not_found = 404
status_for ErrorCode.conflict = 409
status_for ErrorCode.validation_error = 422
status_for ErrorCode.model_incompatible = 422
status_for ErrorCode.internal_error = 500

pub data Failure : Type 0 where
  app : ErrorCode → Failure
  value_error type_error index_error runtime_error overflow_error : Failure

pub data Result {ℓ} (A : Type ℓ) : Type ℓ where
  ok : A → Result A
  err : Failure → Result A

-- `if not b: raise e`
abbrev pub require : Bool → Failure → Result (Unit {0})
require false e = err e
require true e = ok tt

-- statements in sequence: an exception ends them
infixl 5 ◌>>◌
abbrev pub ◌>>◌ {ℓ} : {B : Type ℓ} → Result (Unit {0}) → Result B → Result B
err e >> next = err e
ok u >> next = next

-- statements in sequence, where the later ones use the value of the first
infixl 5 ◌>>=◌
abbrev pub ◌>>=◌ {ℓ κ} : {A : Type ℓ} {B : Type κ} → Result A → (A → Result B) → Result B
err e >>= next = err e
ok x >>= next = next x

pub Result-cases {ℓ} :
    {A : Type ℓ} (r : Result A) → ((a : A) × (r ≡ ok a)) ⊎ ((e : Failure) × (r ≡ err e))
Result-cases (ok a) = inl (a, refl)
Result-cases (err e) = inr (e, refl)

-- a chain that returns ran each of its parts
pub bind-ok {ℓ κ} :
    {A : Type ℓ} {B : Type κ} {f : A → Result B} {b : B} (m : Result A)
    → (m >>= f) ≡ ok b
    → (a : A) × (m ≡ ok a) × (f a ≡ ok b)
bind-ok (ok a) h = (a, refl, h)
bind-ok (err e) h = absurd (ground arith)

pub then-ok {ℓ} :
    {B : Type ℓ} {k : Result B} {b : B} (m : Result Unit)
    → (m >> k) ≡ ok b
    → (m ≡ ok tt) × (k ≡ ok b)
then-ok (ok u) h = (refl, h)
then-ok (err e) h = absurd (ground arith)

abbrev value_or {ℓ} : {A : Type ℓ} → A → Result A → A
value_or a (ok b) = b
value_or a (err e) = a

pub ok-injective {ℓ} : {A : Type ℓ} {a b : A} → ok a ≡ ok b → a ≡ b
ok-injective {a = a} h = ap (value_or a) h
