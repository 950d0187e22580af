-- ===== src/Handlers/Refused.antt =====
-- src/handlers: a request whose CSRF token is not the session's, for every handler that checks the
-- token and answers with an error.
use matrix_identity_admin.Prelude.{ℕ, true, false, all, ◌≡◌}
use matrix_identity_admin.Text.{Text, text_eq}
use matrix_identity_admin.Utf8.{is_ascii}
use matrix_identity_admin.Onboarding.File.{TemplatesFile}
use matrix_identity_admin.Handlers.Session.{AppState, AuthenticatedAdmin}
use matrix_identity_admin.Handlers.Session.Csrf.{Compares, Refuses, validated-Refuses}
use matrix_identity_admin.Handlers.Lifecycle.{
  disable, reactivate, delete, offboard, revoke, force_keycloak_logout, reconcile,
  reconcile_preview,
}
use matrix_identity_admin.Handlers.Bulk.{bulk_reconcile}
use matrix_identity_admin.Handlers.Policy.{CreateBindingForm, UpdateBindingForm}
use matrix_identity_admin.Handlers.Policy
use matrix_identity_admin.Handlers.Templates.{CreateForm}
use matrix_identity_admin.Handlers.Templates

-- If the comparison of the crate is right for slices of one length, the token of the session is
-- ASCII, and the submitted token is another text, then each of the handlers that disable,
-- reactivate, delete, offboard or reconcile a user, preview the reconciliation, reconcile all
-- users, revoke a session or force a logout answers that the token is invalid, calls no service,
-- writes no audit entry, and leaves the database and the services as they are.
pub handlers-Refuses :
    {W : Type 0} (state : AppState W) (admin : AuthenticatedAdmin)
    (csrf id session session_type : Text) (fuel : ℕ)
    → Compares state.ct_eq
    → all is_ascii admin.csrf_token ≡ true
    → text_eq admin.csrf_token csrf ≡ false
    → Refuses (disable state admin id csrf)
      × Refuses (reactivate state admin id csrf)
      × Refuses (delete state admin id csrf)
      × Refuses (offboard state admin id csrf)
      × Refuses (reconcile state admin id csrf)
      × Refuses (reconcile_preview state admin id csrf)
      × Refuses (bulk_reconcile state admin fuel csrf)
      × Refuses (revoke state admin id session csrf session_type)
      × Refuses (force_keycloak_logout state admin id csrf)
unfolding disable reactivate delete offboard reconcile reconcile_preview bulk_reconcile revoke
    force_keycloak_logout
handlers-Refuses state admin csrf id session session_type fuel compares a other = (
  validated-Refuses state admin csrf _ compares a other,
  validated-Refuses state admin csrf _ compares a other,
  validated-Refuses state admin csrf _ compares a other,
  validated-Refuses state admin csrf _ compares a other,
  validated-Refuses state admin csrf _ compares a other,
  validated-Refuses state admin csrf _ compares a other,
  validated-Refuses state admin csrf _ compares a other,
  validated-Refuses state admin csrf _ compares a other,
  validated-Refuses state admin csrf _ compares a other,
)

-- If the comparison of the crate is right for slices of one length, the token of the session is
-- ASCII, and the token of the form is another text, then each of the handlers that create, update
-- or delete a policy binding, refresh the rooms, or create or delete an onboarding template
-- answers that the token is invalid, whatever else the form says, calls no service, writes no
-- audit entry, and leaves the database, the file of the templates and the services as they are.
pub forms-Refuses :
    {W : Type 0} (state : AppState W) (admin : AuthenticatedAdmin) (file : TemplatesFile W)
    (trim : Text → Text) (created : CreateBindingForm) (updated : UpdateBindingForm)
    (template : CreateForm) (csrf id : Text) (fuel : ℕ)
    → Compares state.ct_eq
    → all is_ascii admin.csrf_token ≡ true
    → text_eq admin.csrf_token created.csrf ≡ false
    → text_eq admin.csrf_token updated.csrf ≡ false
    → text_eq admin.csrf_token template.csrf ≡ false
    → text_eq admin.csrf_token csrf ≡ false
    → Refuses (Policy.create state trim admin created)
      × Refuses (Policy.update state trim admin id updated)
      × Refuses (Policy.delete state trim admin id csrf)
      × Refuses (Policy.refresh_rooms state trim admin fuel csrf)
      × Refuses (Templates.create state file admin template)
      × Refuses (Templates.delete state file admin csrf id)
unfolding Policy.create Policy.update Policy.delete Policy.refresh_rooms Templates.create
    Templates.delete
forms-Refuses state admin file trim created updated template csrf id fuel compares a c u t other = (
  validated-Refuses state admin created.csrf _ compares a c,
  validated-Refuses state admin updated.csrf _ compares a u,
  validated-Refuses state admin csrf _ compares a other,
  validated-Refuses state admin csrf _ compares a other,
  validated-Refuses state admin template.csrf _ compares a t,
  validated-Refuses state admin csrf _ compares a other,
)
