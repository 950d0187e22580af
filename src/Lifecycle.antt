-- ===== src/Lifecycle.antt =====
-- src/services/lifecycle_steps.rs: the steps that the lifecycle workflows are made of. A step that
-- is not fatal collects warnings, a fatal one returns the error after it has been audited.
pub mod Kick
pub mod Observes
pub mod Steps
pub mod Reports
pub mod KickReports
pub mod KickSteps
use matrix_identity_admin.Prelude.{List, [], ◌∷◌, ◌++◌, Option, none, some, Bool}
use matrix_identity_admin.Text.{Text, codes}
use matrix_identity_admin.Models.Error.{AppError, Result, Done, ok, err, is_ok, error_text}
use matrix_identity_admin.Models.Workflow.{
  WorkflowOutcome, no_warnings, add_warning, extend, warn_on,
}
use matrix_identity_admin.Models.Audit.{JsonValue, Metadata, audit_result_of}
use matrix_identity_admin.Models.Accounts.{MasUser, MasSession, SessionListResult}
use matrix_identity_admin.Effects.Exec.{Exec, pure, try_then, ◌>>=◌}
use matrix_identity_admin.Effects.Clients.{KeycloakIdentityProvider, AuthService}
use matrix_identity_admin.Effects.Clients.Keycloak
use matrix_identity_admin.Effects.Clients.Mas
use matrix_identity_admin.AuditService.{AuditService, Actor, Target, log}

-- The user that a workflow is about.
pub record Subject : Type 0 where
  pub keycloak_id : Text
  pub username : Text
  pub matrix_user_id : Text

abbrev pub target_of : Subject → Target
target_of s = record {
  keycloak_user_id = some s.keycloak_id;
  matrix_user_id = some s.matrix_user_id;
}

unfoldable pub audit_failed : AppError → Text
audit_failed e = codes "Audit log write failed: " ++ error_text e

unfoldable pub active_sessions : List MasSession → List MasSession
active_sessions [] = []
active_sessions (s ∷ rest) = elim s.finished_at [
  | none ↦ s ∷ active_sessions rest
  | some t ↦ active_sessions rest
]

unfoldable pub not_revoked : MasSession → AppError → Text
not_revoked s e =
    codes "Session "
    ++ (s.id
        ++ (codes " (" ++ (s.session_type ++ (codes ") could not be revoked: " ++ error_text e))))

module _ {W : Type 0} (audit : AuditService W) (who : Actor) where
  -- Every change of an account is logged with its success: the log of `result`.
  unfoldable pub log_result : Subject → Text → Bool → Metadata → Exec W Done
  log_result user action good metadata =
      log audit who (target_of user) action (audit_result_of good) metadata

  -- The loop over the active sessions.
  unfoldable pub revoke_each :
      AuthService W → Subject → Text → WorkflowOutcome → List MasSession → Exec W WorkflowOutcome
  revoke_each mas user action outcome [] = pure outcome
  revoke_each mas user action outcome (s ∷ rest) = do
    result ← Mas.finish_session mas s.id s.session_type
    logged ← log_result user action (is_ok result) (
        (codes "session_id", JsonValue.string s.id)
        ∷ (codes "session_type", JsonValue.string s.session_type)
        ∷ [])
    revoke_each mas user action
        (warn_on result (not_revoked s) (warn_on logged audit_failed outcome)) rest

  -- What follows the session list.
  unfoldable pub revoke_listed :
      AuthService W → Text → Subject → Result SessionListResult → Exec W WorkflowOutcome
  revoke_listed mas context user (err e) =
      pure (add_warning no_warnings (codes "Auth session list failed: " ++ error_text e))
  revoke_listed mas context user (ok l) =
      revoke_each mas user (codes "revoke_auth_session_on_" ++ context)
        (extend no_warnings l.warnings) (active_sessions l.sessions)

  -- What follows the user lookup.
  unfoldable pub revoke_found :
      AuthService W → Text → Subject → Result (Option MasUser) → Exec W WorkflowOutcome
  revoke_found mas context user (ok (some u)) = do
    sessions ← Mas.list_sessions mas u.id
    revoke_listed mas context user sessions
  revoke_found mas context user (ok none) = pure no_warnings
  revoke_found mas context user (err e) =
      pure (add_warning no_warnings (codes "Auth user lookup failed: " ++ error_text e))

  unfoldable pub revoke_auth_sessions : AuthService W → Text → Subject → Exec W WorkflowOutcome
  revoke_auth_sessions mas context user = do
    found ← Mas.get_user_by_username mas user.username
    revoke_found mas context user found

  unfoldable pub force_identity_logout :
      KeycloakIdentityProvider W → Text → Subject → Exec W WorkflowOutcome
  force_identity_logout kc context user = do
    result ← Keycloak.logout_user kc user.keycloak_id
    logged ←
        log_result user (codes "force_identity_logout_on_" ++ context) (is_ok result)
          ((codes "keycloak_user_id", JsonValue.string user.keycloak_id) ∷ [])
    pure (
        warn_on result (λ e. codes "Identity logout failed: " ++ error_text e)
          (warn_on logged audit_failed no_warnings))

  unfoldable pub disable_identity_account :
      KeycloakIdentityProvider W → Text → Subject → Exec W Done
  disable_identity_account kc context user = do
    result ← Keycloak.disable_user kc user.keycloak_id
    try_then
        (log_result user (codes "disable_identity_account_on_" ++ context) (is_ok result) (
          (codes "keycloak_user_id", JsonValue.string user.keycloak_id)
          ∷ (codes "username", JsonValue.string user.username)
          ∷ []))
        (λ _. pure result)

  unfoldable pub enable_identity_account : KeycloakIdentityProvider W → Text → Subject → Exec W Done
  enable_identity_account kc context user = do
    result ← Keycloak.enable_user kc user.keycloak_id
    try_then
        (log_result user (codes "enable_identity_account_on_" ++ context) (is_ok result) (
          (codes "keycloak_user_id", JsonValue.string user.keycloak_id)
          ∷ (codes "username", JsonValue.string user.username)
          ∷ []))
        (λ _. pure result)

  abbrev auth_metadata : Subject → Text → Metadata
  auth_metadata user auth_user_id =
      (codes "auth_user_id", JsonValue.string auth_user_id)
      ∷ (codes "username", JsonValue.string user.username)
      ∷ []

  unfoldable pub deactivate_auth_account : AuthService W → Text → Subject → Text → Exec W Done
  deactivate_auth_account mas context user auth_user_id = do
    result ← Mas.deactivate_user mas auth_user_id
    try_then
        (log_result user (codes "deactivate_auth_account_on_" ++ context) (is_ok result)
          (auth_metadata user auth_user_id))
        (λ _. pure result)

  unfoldable pub reactivate_auth_account :
      AuthService W → Text → Subject → Text → Exec W WorkflowOutcome
  reactivate_auth_account mas context user auth_user_id = do
    result ← Mas.reactivate_user mas auth_user_id
    logged ←
        log_result user (codes "reactivate_auth_account_on_" ++ context) (is_ok result)
          (auth_metadata user auth_user_id)
    pure (
        warn_on result (λ e. codes "Auth account reactivate failed: " ++ error_text e)
          (warn_on logged audit_failed no_warnings))
