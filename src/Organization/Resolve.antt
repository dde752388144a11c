-- ===== src/Organization/Resolve.antt =====
-- `resolveUsers` of api/src/service/domain/organization/group_query.ts: the users behind an identity,
-- through groups that may contain each other. The set of the members that were met is shared by all
-- calls; it is passed on here. The recursion runs on fuel.
pub mod Ends
pub mod Users
pub mod Reached
use tru_budget.Base.{
  ℕ, zero, suc, String, Bool, true, false, Option, none, some, List, [], ◌∷◌, ◌++◌, if◌then◌else◌,
  includes,
}
use tru_budget.Result.{Failure, Result, ok, err, verror, wrapped, not_found}

-- `getGroupFn` and `getUserFn`, which the source takes as arguments, too: a group's members, and
-- whether there is such a user.
pub record Directory : Type 0 where
  pub get_group : String → Option (List String)
  pub is_user : String → Bool

-- What a call comes to: the users or an error, and the set after it; `none` where the fuel was too
-- little.
abbrev pub Resolution : Type 0
Resolution = Option (Result (List String) × List String)

-- `[...new Set(users)]`: each text once, where it stands first
abbrev pub unique_from : List String → List String → List String
unique_from seen [] = []
unique_from seen (x ∷ xs) =
    if includes seen x then unique_from seen xs else x ∷ unique_from (x ∷ seen) xs

abbrev pub unique : List String → List String
unique = unique_from []

-- the identity is no group: it should be a user
abbrev pub as_user : Bool → String → Result (List String)
as_user true identity = ok (identity ∷ [])
as_user false identity = err (not_found "user" identity)

abbrev pub finished : Resolution → Resolution
finished none = none
finished (some (err e, set)) = some (err e, set)
finished (some (ok users, set)) = some (ok (unique users), set)

-- what the loop makes of the users of one member
abbrev pub pushed : List String → (List String → List String → Resolution) → Resolution → Resolution
pushed users next none = none
pushed users next (some (err e, set)) = some (err (wrapped e ("resolve users failed" ∷ [])), set)
pushed users next (some (ok resolved, set)) = next (users ++ resolved) set

-- the loop over the members, with the call for each
unfoldable pub resolve_members :
    (String → List String → Resolution) → List String → List String → List String → Resolution
resolve_members call [] users set = some (ok users, set)
resolve_members call (member ∷ members) users set =
    if includes set member
    then resolve_members call members users set
    else pushed users (resolve_members call members) (call member (member ∷ set))

module _ (directory : Directory) where
  abbrev pub resolve_in :
      (String → List String → Resolution) → String → Option (List String) → List String → Resolution
  resolve_in call identity none set = some (as_user (directory.is_user identity) identity, set)
  resolve_in call identity (some members) set = finished (resolve_members call members [] set)

  -- `resolveUsers`
  unfoldable pub resolve_users : ℕ → String → List String → Resolution
  resolve_users zero identity set = none
  resolve_users (suc fuel) identity set =
      resolve_in (resolve_users fuel) identity (directory.get_group identity) set
