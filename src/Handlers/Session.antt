-- ===== src/Handlers/Session.antt =====
-- What the handlers share: the application state of src/state.rs as far as they use it, the
-- administrator of src/auth/session.rs, the check of src/auth/csrf.rs, and the message of a
-- redirect. `ct_eq` of the crate subtle is a parameter.
pub mod Csrf
pub mod Flash
use matrix_identity_admin.Prelude.{
  ℕ, List, ◌++◌, Option, Bool, false, ltb, ◌==◌, length, if◌then◌else◌,
}
use matrix_identity_admin.Text.{Text, codes}
use matrix_identity_admin.Utf8.{utf8}
use matrix_identity_admin.PctEncode.{pct_encode}
use matrix_identity_admin.Models.Error.{AppError, Result, Done, ok, err}
use matrix_identity_admin.Models.Workflow.{WorkflowOutcome, has_warnings, warning_summary}
use matrix_identity_admin.Effects.Exec.{Exec, or_return}
use matrix_identity_admin.Effects.Clients.{KeycloakIdentityProvider, AuthService, MatrixService}
use matrix_identity_admin.AuditService.{AuditService, Actor}
use matrix_identity_admin.PolicyService.{PolicyService}
use matrix_identity_admin.AuditQueries.{take}

pub record AppState (W : Type 0) : Type 0 where
  pub keycloak : KeycloakIdentityProvider W
  pub mas : AuthService W
  pub synapse : Option (MatrixService W)
  pub audit : AuditService W
  pub policy_service : PolicyService W
  pub homeserver_domain : Text
  pub bot_api_secret : Text
  pub invite_allowed_domains : Option (List Text)
  pub ct_eq : List ℕ → List ℕ → Bool

pub record AuthenticatedAdmin : Type 0 where
  pub actor : Actor
  pub csrf_token : Text

unfoldable pub constant_time_eq : (List ℕ → List ℕ → Bool) → List ℕ → List ℕ → Bool
constant_time_eq ct_eq a b = if length a == length b then ct_eq a b else false

abbrev pub invalid_token : AppError
invalid_token = AppError.validation (codes "Invalid CSRF token.")

unfoldable pub validate : (List ℕ → List ℕ → Bool) → Text → Text → Done
validate ct_eq session_token submitted_token =
    if constant_time_eq ct_eq (utf8 session_token) (utf8 submitted_token)
    then ok tt
    else err invalid_token

-- `validate(&admin.csrf_token, &form._csrf)?` and what follows it.
unfoldable pub validated :
    {W A : Type 0} → AppState W → AuthenticatedAdmin → Text → Exec W (Result A) → Exec W (Result A)
validated state admin csrf body = or_return (λ _. body) (validate state.ct_eq admin.csrf_token csrf)

-- The encoded message, cut at 400 bytes; an ellipsis shows the cut.
unfoldable pub flash : Text → Text
flash message =
    let warning = pct_encode (utf8 message) in
    if ltb 400 (length warning) then take 400 warning ++ codes "%E2%80%A6" else warning

abbrev pub user_path : Text → Text
user_path keycloak_id = codes "/users/" ++ keycloak_id

abbrev pub with_warning : Text → Text → Text
with_warning path message = path ++ (codes "?warning=" ++ flash message)

-- The location that shows the warnings of an outcome, if it has any.
unfoldable pub redirect_for : Text → Text → WorkflowOutcome → Text
redirect_for path otherwise outcome =
    if has_warnings outcome then with_warning path (warning_summary outcome) else otherwise
