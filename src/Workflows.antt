-- ===== src/Workflows.antt =====
-- src/services/disable_user.rs, reactivate_user.rs, delete_user.rs and offboard_user.rs.
pub mod Steps
pub mod Audited
pub mod Ordering
pub mod Deletion
pub mod Reports
pub mod AuditTable
use matrix_identity_admin.Prelude.{
  List, [], ◌∷◌, ◌++◌, Option, none, some, Bool, true, false, is_some, is_empty, if◌then◌else◌,
}
use matrix_identity_admin.Text.{Text, codes}
use matrix_identity_admin.Models.Error.{AppError, Result, Done, ok, err, is_ok, error_text}
use matrix_identity_admin.Models.Workflow.{
  WorkflowOutcome, no_warnings, add_warning, extend, warn_on,
}
use matrix_identity_admin.Models.Audit.{JsonValue}
use matrix_identity_admin.Models.Accounts.{KeycloakUser, MasUser}
use matrix_identity_admin.Models.Policy.{PolicyBinding}
use matrix_identity_admin.Effects.Exec.{Exec, pure, try_then, ◌>>=◌}
use matrix_identity_admin.Effects.Clients.{KeycloakIdentityProvider, AuthService, MatrixService}
use matrix_identity_admin.Effects.Clients.Keycloak
use matrix_identity_admin.Effects.Clients.Mas
use matrix_identity_admin.AuditService.{AuditService, Actor}
use matrix_identity_admin.Lifecycle.{
  Subject, log_result, revoke_auth_sessions, force_identity_logout, disable_identity_account,
  enable_identity_account, deactivate_auth_account, reactivate_auth_account,
}
use matrix_identity_admin.Lifecycle.Kick.{kick_from_all_mapped_rooms}

-- `@{username}:{homeserver_domain}`
unfoldable pub matrix_id : Text → Text → Text
matrix_id username domain = codes "@" ++ (username ++ (codes ":" ++ domain))

-- The user of a workflow, named by the identifier of the request and the username of Keycloak.
abbrev pub subject_of : Text → Text → KeycloakUser → Subject
subject_of domain keycloak_id u = record {
  keycloak_id = keycloak_id;
  username = u.username;
  matrix_user_id = matrix_id u.username domain;
}

pub data DeleteUserResult : Type 0 where
  deleted : WorkflowOutcome → DeleteUserResult
  partial_failure : WorkflowOutcome → DeleteUserResult

unfoldable pub outcome : DeleteUserResult → WorkflowOutcome
outcome (DeleteUserResult.deleted o) = o
outcome (DeleteUserResult.partial_failure o) = o

-- A lookup that failed counts as an absent user.
unfoldable pub found_user : Result (Option MasUser) → Option MasUser
found_user (ok u) = u
found_user (err e) = none

unfoldable pub lookup_failed : AppError → Text
lookup_failed e = codes "Auth user lookup failed: " ++ error_text e

unfoldable pub deactivation_skipped : AppError → Text
deactivation_skipped e = codes "Auth user lookup failed; skipping deactivation: " ++ error_text e

unfoldable pub leftover_account : AppError → Text
leftover_account e =
    codes
      "Deleted the Keycloak user, but MAS lookup failed before cleanup. Check MAS for a leftover account."

-- The result of `delete_user`, from the answer of Keycloak's delete.
unfoldable pub conclude_delete : Bool → WorkflowOutcome → Done → Result DeleteUserResult
conclude_delete mas_found o (ok _) = ok (DeleteUserResult.deleted o)
conclude_delete true o (err e) = ok (
    DeleteUserResult.partial_failure (
      add_warning o (
        codes
          "MAS was deactivated, but deleting the Keycloak user failed. Retry delete or reactivate the user before reinviting them.")))
conclude_delete false o (err e) = err e

module _ {W : Type 0} (kc : KeycloakIdentityProvider W) (mas : AuthService W)
    (audit : AuditService W) (who : Actor) (domain : Text) where
  unfoldable pub disable_user : Text → Exec W (Result WorkflowOutcome)
  disable_user keycloak_id = try_then (Keycloak.get_user kc keycloak_id) λ kc_user.
      let user = subject_of domain keycloak_id kc_user in
      do
        revoked ← revoke_auth_sessions audit who mas (codes "disable") user
        try_then (disable_identity_account audit who kc (codes "disable") user)
            (λ _. pure (ok revoked))

  unfoldable pub reactivate_deactivated :
      Subject → WorkflowOutcome → MasUser → Exec W (Result WorkflowOutcome)
  reactivate_deactivated user o u = do
    reactivated ← reactivate_auth_account audit who mas (codes "reactivate") user u.id
    pure (ok (extend o reactivated.warnings))

  -- The MAS account is reactivated if there is one and it is deactivated.
  unfoldable pub reactivate_found :
      Subject → WorkflowOutcome → Option MasUser → Exec W (Result WorkflowOutcome)
  reactivate_found user o none = pure (ok o)
  reactivate_found user o (some u) =
      if is_some u.deactivated_at then reactivate_deactivated user o u else pure (ok o)

  unfoldable pub reactivate_user : Text → Exec W (Result WorkflowOutcome)
  reactivate_user keycloak_id = try_then (Keycloak.get_user kc keycloak_id) λ kc_user.
      let user = subject_of domain keycloak_id kc_user in
      try_then (enable_identity_account audit who kc (codes "reactivate") user) λ _. do
        found ← Mas.get_user_by_username mas user.username
        reactivate_found user (warn_on found lookup_failed no_warnings) (found_user found)

  -- Step 3 of `delete_user`: the MAS account, if any, is deactivated before anything is deleted.
  unfoldable pub deactivate_first : Subject → Option MasUser → Exec W Done
  deactivate_first user none = pure (ok tt)
  deactivate_first user (some u) = do
    result ← Mas.deactivate_user mas u.id
    try_then
        (log_result audit who user (codes "deactivate_mas_user") (is_ok result) (
          (codes "keycloak_user_id", JsonValue.string user.keycloak_id)
          ∷ (codes "mas_user_id", JsonValue.string u.id)
          ∷ (codes "username", JsonValue.string user.username)
          ∷ []))
        (λ _. pure result)

  unfoldable pub delete_keycloak :
      Subject → WorkflowOutcome → Option MasUser → Exec W (Result DeleteUserResult)
  delete_keycloak user o mas_user = do
    result ← Keycloak.delete_user kc user.keycloak_id
    try_then
        (log_result audit who user (codes "delete_keycloak_user") (is_ok result) (
          (codes "keycloak_user_id", JsonValue.string user.keycloak_id)
          ∷ (codes "username", JsonValue.string user.username)
          ∷ (codes "mas_deactivated", JsonValue.bool (is_some mas_user))
          ∷ []))
        (λ _. pure (conclude_delete (is_some mas_user) o result))

  unfoldable pub delete_user : Text → Exec W (Result DeleteUserResult)
  delete_user keycloak_id = try_then (Keycloak.get_user kc keycloak_id) λ kc_user.
      let user = subject_of domain keycloak_id kc_user in
      do
        found ← Mas.get_user_by_username mas user.username
        try_then (deactivate_first user (found_user found)) λ _.
            delete_keycloak user (warn_on found leftover_account no_warnings) (found_user found)

  -- Step 4 of `offboard_user`.
  unfoldable pub clean_rooms :
      Option (MatrixService W)
      → Subject
      → List PolicyBinding
      → WorkflowOutcome
      → Exec W WorkflowOutcome
  clean_rooms (some synapse) user bindings o = do
    kicked ← kick_from_all_mapped_rooms audit who synapse (codes "offboard") user bindings
    pure (extend o kicked.warnings)
  clean_rooms none user bindings o = pure (
      if is_empty bindings
      then o
      else add_warning o
          (codes "Matrix connector not configured; room membership was not cleaned up"))

  -- Step 5 of `offboard_user`.
  unfoldable pub deactivate_found :
      Subject → WorkflowOutcome → Option MasUser → Exec W (Result WorkflowOutcome)
  deactivate_found user o none = pure (ok o)
  deactivate_found user o (some u) =
      try_then (deactivate_auth_account audit who mas (codes "offboard") user u.id)
        (λ _. pure (ok o))

  -- Steps 4 and 5, which follow a successful disable.
  unfoldable pub offboard_disabled :
      Option (MatrixService W)
      → List PolicyBinding
      → Subject
      → WorkflowOutcome
      → Exec W (Result WorkflowOutcome)
  offboard_disabled synapse bindings user o = do
    cleaned ← clean_rooms synapse user bindings o
    found ← Mas.get_user_by_username mas user.username
    deactivate_found user (warn_on found deactivation_skipped cleaned) (found_user found)

  unfoldable pub offboard_user :
      Option (MatrixService W) → List PolicyBinding → Text → Exec W (Result WorkflowOutcome)
  offboard_user synapse bindings keycloak_id =
      try_then (Keycloak.get_user kc keycloak_id) λ kc_user.
        let user = subject_of domain keycloak_id kc_user in
        do
          revoked ← revoke_auth_sessions audit who mas (codes "offboard") user
          logged_out ← force_identity_logout audit who kc (codes "offboard") user
          try_then (disable_identity_account audit who kc (codes "offboard") user)
              λ _. offboard_disabled synapse bindings user (extend revoked logged_out.warnings)
