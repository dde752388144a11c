-- ===== src/Joi.antt =====
-- The validation library Joi, which is not part of the repository, as the checks that the program's
-- schemas are put together from; and how a schema combines them.
use tru_budget.Base.{ℕ, String, Bool, true, false, ◌&&◌, Option, none, some}

pub record Joi : Type 0 where
  -- `Joi.string()` on a text
  pub string : String → Bool
  -- the limit of `.max(n)` on a text
  pub max : ℕ → String → Bool
  -- `Joi.date().iso()` on a text
  pub iso_date : String → Bool

-- `.optional()`, the default: `undefined` passes.
abbrev pub if_given {ℓ} : {A : Type ℓ} → (A → Bool) → Option A → Bool
if_given p none = true
if_given p (some a) = p a

-- `.required()`
abbrev pub required {ℓ} : {A : Type ℓ} → (A → Bool) → Option A → Bool
required p none = false
required p (some a) = p a

-- `Joi.forbidden()`
abbrev pub forbidden {ℓ} : {A : Type ℓ} → Option A → Bool
forbidden none = true
forbidden (some a) = false

-- `.allow("")` beside a check
abbrev pub or_empty : (String → Bool) → String → Bool
or_empty p String.[] = true
or_empty p (String.◌∷◌ c s) = p (String.◌∷◌ c s)

-- `Joi.string().allow("").optional()` and the like
abbrev pub id_text : Joi → String → Bool
id_text joi s = joi.string s && joi.max 32 s
