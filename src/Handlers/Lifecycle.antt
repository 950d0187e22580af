-- ===== src/Handlers/Lifecycle.antt =====
-- src/handlers/disable.rs, reactivate.rs, offboard.rs, delete.rs, sessions.rs, devices.rs and
-- reconcile.rs: the handlers of one user. Each returns the location of its redirect; the preview
-- returns what its template is given.
use matrix_identity_admin.Prelude.{List, [], ◌∷◌, ◌++◌, map, none, some}
use matrix_identity_admin.Text.{Text, codes}
use matrix_identity_admin.Utf8.{utf8}
use matrix_identity_admin.PctEncode.{pct_encode}
use matrix_identity_admin.Models.Error.{AppError, Result, Done, ok, err, is_ok}
use matrix_identity_admin.Models.Audit.{JsonValue, Metadata, audit_result_of}
use matrix_identity_admin.Models.Policy.{PolicyBinding}
use matrix_identity_admin.Models.Workflow.{warning_summary}
use matrix_identity_admin.Effects.Exec.{Exec, pure, try_then, ◌>>=◌}
use matrix_identity_admin.Effects.Clients.{MatrixService}
use matrix_identity_admin.Effects.Clients.Keycloak
use matrix_identity_admin.Effects.Clients.Mas
use matrix_identity_admin.AuditService.{log}
use matrix_identity_admin.PolicyService.{list_bindings}
use matrix_identity_admin.Lifecycle.{Subject}
use matrix_identity_admin.Workflows.{
  DeleteUserResult, subject_of, disable_user, reactivate_user, delete_user, offboard_user,
}
use matrix_identity_admin.Reconcile.{reconcile_membership}
use matrix_identity_admin.Reconcile.Preview.{ReconcilePreview, preview_membership}
use matrix_identity_admin.Handlers.Session.{
  AppState, AuthenticatedAdmin, validated, user_path, with_warning, redirect_for,
}

abbrev pub with_notice : Text → Text → Text
with_notice path message = path ++ (codes "?notice=" ++ pct_encode (utf8 message))

unfoldable pub delete_redirect : Text → DeleteUserResult → Text
delete_redirect keycloak_id (DeleteUserResult.deleted outcome) =
    redirect_for (codes "/users/search") (codes "/users/search") outcome
delete_redirect keycloak_id (DeleteUserResult.partial_failure outcome) =
    with_warning (user_path keycloak_id) (warning_summary outcome)

abbrev pub not_configured : AppError
not_configured =
    AppError.not_found (codes "Synapse is not configured — reconciliation is unavailable")

module _ {W : Type 0} (state : AppState W) (admin : AuthenticatedAdmin) where
  unfoldable pub disable : Text → Text → Exec W (Result Text)
  disable keycloak_id csrf = validated state admin csrf (
      try_then
        (disable_user state.keycloak state.mas state.audit admin.actor state.homeserver_domain
          keycloak_id)
        λ outcome. pure (ok (redirect_for (user_path keycloak_id) (user_path keycloak_id) outcome)))

  unfoldable pub reactivate : Text → Text → Exec W (Result Text)
  reactivate keycloak_id csrf = validated state admin csrf (
      try_then
        (reactivate_user state.keycloak state.mas state.audit admin.actor state.homeserver_domain
          keycloak_id)
        λ outcome. pure (
          ok (
            redirect_for (user_path keycloak_id)
              (user_path keycloak_id ++ codes "?notice=User+reactivated") outcome)))

  unfoldable pub delete : Text → Text → Exec W (Result Text)
  delete keycloak_id csrf = validated state admin csrf (
      try_then
        (delete_user state.keycloak state.mas state.audit admin.actor state.homeserver_domain
          keycloak_id)
        λ result. pure (ok (delete_redirect keycloak_id result)))

  unfoldable pub offboard : Text → Text → Exec W (Result Text)
  offboard keycloak_id csrf = validated state admin csrf (
      try_then (list_bindings state.policy_service) λ bindings.
        try_then
          (offboard_user state.keycloak state.mas state.audit admin.actor state.homeserver_domain
            state.synapse bindings keycloak_id)
          λ outcome. pure (
            ok (
              redirect_for (user_path keycloak_id)
                (with_notice (user_path keycloak_id) (codes "User offboarded successfully"))
                outcome)))

  -- The audit entry of a call, and then its own error.
  unfoldable pub log_and_return : Text → Text → Metadata → Done → Exec W (Result Text)
  log_and_return keycloak_id action metadata result =
      try_then
        (log state.audit admin.actor
          (record { keycloak_user_id = some keycloak_id; matrix_user_id = none }) action
          (audit_result_of (is_ok result)) metadata)
        λ _. try_then (pure result) λ _. pure (ok (user_path keycloak_id))

  unfoldable pub revoke : Text → Text → Text → Text → Exec W (Result Text)
  revoke keycloak_id session_id csrf session_type = validated state admin csrf (
      Mas.finish_session state.mas session_id session_type
      >>= log_and_return keycloak_id (codes "finish_mas_session") (
          (codes "session_id", JsonValue.string session_id)
          ∷ (codes "session_type", JsonValue.string session_type)
          ∷ []))

  unfoldable pub force_keycloak_logout : Text → Text → Exec W (Result Text)
  force_keycloak_logout keycloak_id csrf = validated state admin csrf (
      Keycloak.logout_user state.keycloak keycloak_id
      >>= log_and_return keycloak_id (codes "force_keycloak_logout")
          ((codes "keycloak_user_id", JsonValue.string keycloak_id) ∷ []))

  abbrev pub or_not_configured :
      {A : Type 0} → (MatrixService W → Exec W (Result A)) → Exec W (Result A)
  or_not_configured f = elim state.synapse [
    | none ↦ pure (err not_configured)
    | some synapse ↦ f synapse
  ]

  -- The user of the request with its groups and roles, and the bindings.
  unfoldable pub with_memberships :
      {A : Type 0}
      → Text
      → (Subject → List PolicyBinding → List Text → List Text → Exec W (Result A))
      → Exec W (Result A)
  with_memberships keycloak_id f =
      try_then (Keycloak.get_user state.keycloak keycloak_id) λ kc_user.
        try_then (Keycloak.get_user_groups state.keycloak keycloak_id) λ kc_groups.
          try_then (Keycloak.get_user_roles state.keycloak keycloak_id) λ kc_roles.
            try_then (list_bindings state.policy_service) λ bindings.
              f (subject_of state.homeserver_domain keycloak_id kc_user) bindings
                (map (λ g. g.name) kc_groups) (map (λ r. r.name) kc_roles)

  unfoldable pub reconcile : Text → Text → Exec W (Result Text)
  reconcile keycloak_id csrf = validated state admin csrf (
      or_not_configured λ synapse. with_memberships keycloak_id λ user bindings groups roles.
        try_then (reconcile_membership state.audit admin.actor synapse user bindings groups roles)
          λ outcome. pure (
            ok (
              redirect_for (user_path keycloak_id)
                (with_notice (user_path keycloak_id) (codes "Room membership reconciled"))
                outcome)))

  unfoldable pub reconcile_preview : Text → Text → Exec W (Result ReconcilePreview)
  reconcile_preview keycloak_id csrf = validated state admin csrf (
      or_not_configured λ synapse. with_memberships keycloak_id λ user bindings groups roles.
        preview_membership synapse user.matrix_user_id bindings groups roles)
