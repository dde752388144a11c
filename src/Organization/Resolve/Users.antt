-- ===== src/Organization/Resolve/Users.antt =====
-- The users that `resolveUsers` of api/src/service/domain/organization/group_query.ts returns.
use tru_budget.Base.{◌≡◌, ◌↔◌, String, true, none, List, includes}
use tru_budget.Result.{Result, ok, err}
use tru_budget.Organization.Resolve.{Directory}
use tru_budget.Organization.Resolve.Reached.{Reaches, Once, IsLost}

module _ (directory : Directory) where
  -- From an identity, with an empty set: the error tells of an identity that is lost, and the users are
  -- those that are reached.
  abbrev pub Finds : String → Result (List String) → Type 0
  Finds identity (err e) = IsLost directory identity
  Finds identity (ok users) =
      Once users
      × ((u : String)
          → (includes users u ≡ true)
            ↔ (Reaches directory identity u × (directory.get_group u ≡ none)))
