-- ===== src/Commands/Checks.antt =====
-- What the checks that the commands share establish.
use tru_budget.Base.{
  ◌≡◌, refl, ◌⊎◌, true, not, ◌||◌, List, [], ◌∷◌, arith, any, includes, All, String, ◌===◌, ===_eq,
}
use tru_budget.Result.{ok}
use tru_budget.Intents.{Intent}
use tru_budget.Event.{Status, opened, closed, Permissions}
use tru_budget.Identity.{ServiceUser, permits}
use tru_budget.Workflowitem.Ordering.{is_closed}
use tru_budget.Commands.{require_permission}

pub is_closed-eq-true : (s : Status) → is_closed s ≡ true → s ≡ closed
is_closed-eq-true closed h = refl
is_closed-eq-true opened h = cc

-- Nothing that is not closed: everything is.
pub not-any-All {ℓ} :
    {T : Type ℓ} (status_of : T → Status) (xs : List T)
    → not (any (λ x. not (is_closed (status_of x))) xs) ≡ true
    → All (λ x. status_of x ≡ closed) xs
not-any-All status_of [] h = tt
not-any-All status_of (x ∷ xs) h =
    (is_closed-eq-true (status_of x) (ground arith), not-any-All status_of xs (ground arith))

pub root_or_assigned :
    (user : ServiceUser) (assigned : List String)
    → ((user.id === "root") || includes assigned user.id) ≡ true
    → (user.id ≡ "root") ⊎ (includes assigned user.id ≡ true)
root_or_assigned user assigned h = ground (arith, ===_eq user.id "root")

pub require_permission-eq-ok :
    (user : ServiceUser) (intent : Intent) (permissions : Permissions) {u : Unit {0}}
    → require_permission user intent permissions ≡ ok u
    → (user.id ≡ "root") ⊎ (permits permissions user (intent ∷ []) ≡ true)
unfolding require_permission
require_permission-eq-ok user intent permissions e = ground (arith, ===_eq user.id "root")
