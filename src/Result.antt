-- ===== src/Result.antt =====
-- api/src/result.ts and api/src/service/domain/errors: a value or an error, as `T | Error`, and the
-- error classes with what distinguishes them. A message is the list of its pieces.
pub mod Inversion
use tru_budget.Base.{String, List, [], ◌∷◌, Bool, true, false}

pub data Failure : Type 0 where
  -- `new VError(message)` and `new VError(cause, message)`
  verror : List String → Failure
  wrapped : Failure → List String → Failure
  -- the error of a Joi validation
  joi_error : Failure
  -- `new EventSourcingError(info, cause)`
  event_sourcing_error : Failure → Failure
  -- the entity's type and its ID
  not_found : String → String → Failure
  -- the ID
  already_exists : String → Failure
  -- the user and the intent
  not_authorized : String → String → Failure
  precondition_error : List String → Failure
  invalid_command : Failure → Failure
  -- one of several errors beside the rest
  beside : Failure → Failure → Failure
  -- a `TypeError` that a call on a value of another type throws
  type_error : Failure

-- the list of errors that an `InvalidCommand` is given
abbrev pub all_of : Failure → List Failure → Failure
all_of e [] = e
all_of e (f ∷ fs) = beside e (all_of f fs)

pub data Result {ℓ} (T : Type ℓ) : Type ℓ where
  err : (failure : Failure) → Result T
  ok : (value : T) → Result T

infixl 5 ◌>>=◌ ◌>>◌
abbrev pub ◌>>=◌ {ℓ κ} : {T : Type ℓ} {U : Type κ} → Result T → (T → Result U) → Result U
err failure >>= next = err failure
ok value >>= next = next value

abbrev pub ◌>>◌ {ℓ} : {U : Type ℓ} → Result (Unit {0}) → Result U → Result U
check >> rest = check >>= λ _. rest

-- `if (!test) return error`
abbrev pub require : Bool → Failure → Result (Unit {0})
require false failure = err failure
require true failure = ok tt

-- `if (Result.isErr(r)) return f(r)`
abbrev pub map_err {ℓ} : {A : Type ℓ} → Result A → (Failure → Failure) → Result A
map_err (ok a) f = ok a
map_err (err e) f = err (f e)

-- `Result.map`
abbrev pub map_ok {ℓ κ} : {A : Type ℓ} {B : Type κ} → Result A → (A → B) → Result B
map_ok (ok a) f = ok (f a)
map_ok (err e) f = err e

abbrev pub is_ok {ℓ} : {A : Type ℓ} → Result A → Bool
is_ok (ok a) = true
is_ok (err e) = false

-- `if (errors.length > 0) return new InvalidCommand(ctx, event, errors)`
abbrev pub unless_errors {ℓ} : {A : Type ℓ} → List Failure → A → Result A
unless_errors [] a = ok a
unless_errors (e ∷ es) a = err (invalid_command (all_of e es))
