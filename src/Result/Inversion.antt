-- ===== src/Result/Inversion.antt =====
-- What a successful chain of steps has passed through.
use tru_budget.Base.{◌≡◌, refl, Bool, true, false, ◌⊎◌, inl, inr}
use tru_budget.Result.{Failure, Result, ok, err, ◌>>=◌, require, map_err}

pub >>=-eq-ok {ℓ κ} :
    {T : Type ℓ} {U : Type κ} (first : Result T) (next : T → Result U) {u : U}
    → (first >>= next) ≡ ok u
    → (t : T) × (first ≡ ok t) × (next t ≡ ok u)
>>=-eq-ok (err failure) next done = cc
>>=-eq-ok (ok t) next done = (t, refl, done)

pub require-eq-ok :
    (test : Bool) (failure : Failure) {u : Unit {0}} → require test failure ≡ ok u → test ≡ true
require-eq-ok false failure done = cc
require-eq-ok true failure done = refl

pub map_err-eq-ok {ℓ} :
    {A : Type ℓ} (r : Result A) (f : Failure → Failure) {a : A} → map_err r f ≡ ok a → r ≡ ok a
map_err-eq-ok (ok a) f h = h
map_err-eq-ok (err e) f h = cc

pub Result-cases {ℓ} :
    {A : Type ℓ} (r : Result A) → ((e : Failure) × (r ≡ err e)) ⊎ ((a : A) × (r ≡ ok a))
Result-cases (ok a) = inr (a, refl)
Result-cases (err e) = inl (e, refl)
