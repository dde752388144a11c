-- ===== src/Commands/UpdateProject.antt =====
-- api/src/service/domain/workflow/project_update.ts; lodash's `isEqual` is a parameter.
use tru_budget.Base.{String, Bool, List, [], ◌∷◌, if◌then◌else◌}
use tru_budget.Result.{Result, ok, ◌>>=◌, ◌>>◌, map_err, wrapped, not_found, invalid_command}
use tru_budget.Joi.{Joi}
use tru_budget.Event.{Identity, BusinessEvent, ProjectModification}
use tru_budget.Identity.{ServiceUser}
use tru_budget.Notification.{Ctx, header_at, running, finish_with, notify_from}
use tru_budget.Project.{Project}
use tru_budget.Project.Updated
use tru_budget.Project.EventSourcing.{new_project_from_event}
use tru_budget.Commands.{require_permission}

pub record Repository : Type 0 where
  pub get_project : String → Result Project
  pub get_users_for_identity : Identity → Result (List String)

module _ (joi : Joi) (is_equal : Project → Project → Bool) (ctx : Ctx) (issuer : ServiceUser)
    (project_id : String) (repository : Repository) where
  -- `isEqualIgnoringLog`
  abbrev pub is_equal_ignoring_log : Project → Project → Bool
  is_equal_ignoring_log a b = is_equal (record a { log = [] }) (record b { log = [] })

  -- the rest for an event that changes something
  unfoldable pub tell_update : Project → BusinessEvent → Result (List BusinessEvent)
  tell_update p event = do
    recipients ←
        map_err (repository.get_users_for_identity p.assignee)
          (λ e. wrapped e ("fetch users for " ∷ p.assignee ∷ " failed" ∷ []))
    notifications ← finish_with "failed to create notification created events" (
        notify_from joi ctx "failed to create notification event" issuer.id event project_id 1
          recipients (running (ok [])))
    ok (event ∷ notifications)

  -- `updateProject`
  unfoldable pub update_project : ProjectModification → Result (List BusinessEvent)
  unfolding tell_update
  update_project update = do
    p ← map_err (repository.get_project project_id) (λ _. not_found "project" project_id)
    event ←
        map_err (Updated.create_event joi (header_at ctx 0 issuer.id) project_id update)
          (λ e. wrapped e ("create update-event failed" ∷ []))
    require_permission issuer "project.update" p.permissions
    result ← map_err (new_project_from_event joi p event) invalid_command
    if is_equal_ignoring_log p result then ok [] else tell_update p event
