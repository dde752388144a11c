-- ===== src/Commands/LastUser.antt =====
-- The end of the `revoke` commands of api/src/service/domain/workflow: the last user with the
-- permission to grant permissions keeps it.
pub mod Granters
use tru_budget.Base.{Bool, true, false, not, ◌&&◌, ◌===◌, Option, none, some, List, [], ◌∷◌}
use tru_budget.Result.{Result, ok, err, require, precondition_error}
use tru_budget.Dict.{lookup}
use tru_budget.Intents.{Intent}
use tru_budget.Event.{Identity, Permissions}

-- `permissions[intent]?.length === 1`
abbrev pub is_single : Option (List Identity) → Bool
is_single none = false
is_single (some []) = false
is_single (some (id ∷ [])) = true
is_single (some (id ∷ id' ∷ ids)) = false

-- `if (intent && intents.includes(intent) && permissions[intent]?.length === 1) return new PreconditionError(…)`
unfoldable pub keep_last_user : Intent → Intent → Permissions → Result (Unit {0})
keep_last_user grant_intent intent permissions =
    require (not ((grant_intent === intent) && is_single (lookup intent permissions)))
      (precondition_error ("Revoking " ∷ intent ∷ " of last user is not allowed." ∷ []))
