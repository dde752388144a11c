-- ===== src/Organization/User/Events.antt =====
-- The events of users: user_created.ts, user_enabled.ts, user_disabled.ts, user_password_changed.ts,
-- user_permission_granted.ts and user_permission_revoked.ts in api/src/service/domain/organization.
-- Of each the end of `createEvent`, and `mutate` (or `createFrom`).
use tru_budget.Base.{String, Bool, ◌&&◌, [], ◌∷◌, includes}
use tru_budget.Result.{Result, ok, map_err, event_sourcing_error}
use tru_budget.Dict.{insert}
use tru_budget.Joi.{Joi, id_text}
use tru_budget.Intents.{Intent, user_intents}
use tru_budget.Event.{
  Identity, Header, UserInitialData, BusinessEvent, user_created, user_enabled, user_disabled,
  user_password_changed, user_permission_granted, user_permission_revoked,
}
use tru_budget.Event.Checks.{header_ok, permissions_ok}
use tru_budget.Event.Create.{checked}
use tru_budget.Identity.Grants.{grant, revoke}
use tru_budget.Organization.User.{UserRecord, validate}

module _ (joi : Joi) where
  -- `initialDataSchema`
  abbrev pub initial_data_ok : UserInitialData → Bool
  initial_data_ok u =
      id_text joi u.id
      && joi.string u.display_name
      && joi.string u.organization
      && joi.string u.password_hash
      && joi.string u.address
      && joi.string u.encrypted_priv_key
      && permissions_ok joi u.permissions

  unfoldable pub create_created : Header → UserInitialData → Result BusinessEvent
  create_created header user =
      checked (header_ok joi header && initial_data_ok user) (user_created header user)

  unfoldable pub create_enabled : Header → String → Result BusinessEvent
  create_enabled header user_id =
      checked (header_ok joi header && id_text joi user_id) (user_enabled header user_id)

  unfoldable pub create_disabled : Header → String → Result BusinessEvent
  create_disabled header user_id =
      checked (header_ok joi header && id_text joi user_id) (user_disabled header user_id)

  unfoldable pub create_password_changed : Header → String → String → Result BusinessEvent
  create_password_changed header user_id password_hash =
      checked (header_ok joi header && id_text joi user_id && joi.string password_hash)
        (user_password_changed header user_id password_hash)

  unfoldable pub create_permission_granted :
      Header → String → Intent → Identity → Result BusinessEvent
  create_permission_granted header user_id permission grantee =
      checked
        (header_ok joi header
          && id_text joi user_id
          && includes user_intents permission
          && joi.string grantee)
        (user_permission_granted header user_id permission grantee)

  unfoldable pub create_permission_revoked :
      Header → String → Intent → Identity → Result BusinessEvent
  create_permission_revoked header user_id permission revokee =
      checked
        (header_ok joi header
          && id_text joi user_id
          && includes user_intents permission
          && joi.string revokee)
        (user_permission_revoked header user_id permission revokee)

  -- `createFrom` of user_created.ts
  unfoldable pub create_from : Header → UserInitialData → Result UserRecord
  create_from header initial =
      map_err
        (validate joi (record {
          id = initial.id;
          created_at = header.time;
          display_name = initial.display_name;
          organization = initial.organization;
          password_hash = initial.password_hash;
          address = initial.address;
          encrypted_priv_key = initial.encrypted_priv_key;
          permissions = initial.permissions;
          log = [];
          additional_data = initial.additional_data;
        }))
        event_sourcing_error

unfoldable pub mutate_enabled : UserRecord → Result UserRecord
mutate_enabled u =
    ok (record u { permissions = insert "user.authenticate" (u.id ∷ []) u.permissions })

unfoldable pub mutate_disabled : UserRecord → Result UserRecord
mutate_disabled u = ok (record u { permissions = insert "user.authenticate" [] u.permissions })

unfoldable pub mutate_password_changed : String → UserRecord → Result UserRecord
mutate_password_changed password_hash u = ok (record u { password_hash = password_hash })

unfoldable pub mutate_permission_granted : Intent → Identity → UserRecord → Result UserRecord
mutate_permission_granted permission grantee u =
    ok (record u { permissions = grant permission grantee u.permissions })

unfoldable pub mutate_permission_revoked : Intent → Identity → UserRecord → Result UserRecord
mutate_permission_revoked permission revokee u =
    ok (record u { permissions = revoke permission revokee u.permissions })
