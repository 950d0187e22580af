-- ===== src/Invite.antt =====
-- `invite_user` of src/services/invite_user.rs.
pub mod Rules
pub mod Outcome
use matrix_identity_admin.Prelude.{
  List, [], ◌∷◌, ◌++◌, Option, none, some, Bool, true, not, is_some, if◌then◌else◌,
}
use matrix_identity_admin.Text.{Text, codes, contains}
use matrix_identity_admin.Models.Error.{AppError, Result, Done, ok, err, is_ok}
use matrix_identity_admin.Models.Audit.{JsonValue, Metadata, audit_result_of}
use matrix_identity_admin.Models.Accounts.{
  KeycloakUser, MasUser, OnboardingTemplate, is_valid_matrix_localpart,
}
use matrix_identity_admin.Effects.Exec.{Exec, pure, try_then, ◌>>=◌}
use matrix_identity_admin.Effects.Clients.{KeycloakIdentityProvider, AuthService}
use matrix_identity_admin.Effects.Clients.Keycloak
use matrix_identity_admin.Effects.Clients.Mas
use matrix_identity_admin.AuditService.{AuditService, Actor, log}
use matrix_identity_admin.Workflows.{matrix_id, found_user}
use matrix_identity_admin.Onboarding.{Assignment, apply_template}
use matrix_identity_admin.InviteEmail.{ValidatedInviteEmail, validate_invite_email}

unfoldable pub not_permitted : Text → AppError
not_permitted domain =
    AppError.validation (codes "Email domain '" ++ (domain ++ codes "' is not permitted"))

unfoldable pub no_localpart : Text → AppError
no_localpart local = AppError.validation (
    codes "Email local-part '"
    ++ (local
        ++ codes
            "' cannot be used as a Matrix username (only lowercase letters, digits, and ._=-/ are allowed)"))

unfoldable pub already_exists : Text → KeycloakUser → AppError
already_exists email existing = AppError.validation (
    codes "A user with email "
    ++ (email ++ (codes " already exists (id: " ++ (existing.id ++ codes ")"))))

abbrev pub is_permitted : Option (List Text) → Text → Bool
is_permitted none domain = true
is_permitted (some allowed) domain = contains allowed domain

-- The checks that need no call: the allowlist and the Matrix localpart, for a valid address.
unfoldable pub check_validated :
    Option (List Text) → Result ValidatedInviteEmail → Result ValidatedInviteEmail
check_validated allowed (err e) = err e
check_validated allowed (ok v) =
    if not (is_permitted allowed v.domain)
    then err (not_permitted v.domain)
    else if not (is_valid_matrix_localpart v.local)
    then err (no_localpart v.local)
    else ok v

-- What the last steps know of the request.
pub record Invitation : Type 0 where
  pub email : Text
  pub user_id : Text
  pub matrix_user_id : Text
  pub requested_by : Option Text
  pub template : Option OnboardingTemplate

abbrev pub text_value : Option Text → JsonValue
text_value none = JsonValue.null
text_value (some t) = JsonValue.string t

abbrev pub template_value : Option OnboardingTemplate → JsonValue
template_value none = JsonValue.null
template_value (some t) = JsonValue.string t.name

module _ {W : Type 0} (kc : KeycloakIdentityProvider W) (mas : AuthService W)
    (audit : AuditService W) (who : Actor) where
  abbrev pub log_invite : Invitation → Text → Bool → Metadata → Exec W Done
  log_invite i action good metadata =
      log audit who
        (record { keycloak_user_id = some i.user_id; matrix_user_id = some i.matrix_user_id })
        action (audit_result_of good) metadata

  unfoldable pub reactivate_mas : Invitation → MasUser → Exec W Done
  reactivate_mas i u = do
    result ← Mas.reactivate_user mas u.id
    try_then
        (log_invite i (codes "reactivate_mas_user") (is_ok result) (
          (codes "email", JsonValue.string i.email)
          ∷ (codes "mas_user_id", JsonValue.string u.id)
          ∷ (codes "keycloak_user_id", JsonValue.string i.user_id)
          ∷ []))
        (λ _. pure result)

  unfoldable pub reactivate_existing : Invitation → Option MasUser → Exec W Done
  reactivate_existing i none = pure (ok tt)
  reactivate_existing i (some u) =
      if is_some u.deactivated_at then reactivate_mas i u else pure (ok tt)

  unfoldable pub invite_message : Text → Text
  invite_message email =
      codes "Invite sent to "
      ++ (email
          ++ codes
              " — they will receive an email to set their password and can then log into Matrix.")

  unfoldable pub send_invite : Invitation → Assignment → Exec W (Result Text)
  send_invite i a = do
    result ← Keycloak.send_invite_email kc i.user_id
    try_then
        (log_invite i (codes "invite_user") (is_ok result) (
          (codes "email", JsonValue.string i.email)
          ∷ (codes "requested_by", text_value i.requested_by)
          ∷ (codes "keycloak_user_id", JsonValue.string i.user_id)
          ∷ (codes "template", template_value i.template)
          ∷ (codes "assigned_groups", JsonValue.strings a.assigned_groups)
          ∷ (codes "failed_groups", JsonValue.strings a.failed_groups)
          ∷ (codes "assigned_roles", JsonValue.strings a.assigned_roles)
          ∷ (codes "failed_roles", JsonValue.strings a.failed_roles)
          ∷ []))
        (λ _. try_then (pure result) (λ _. pure (ok (invite_message i.email))))

  -- The steps after the creation of the Keycloak user.
  unfoldable pub invite_created : Invitation → Option MasUser → Exec W (Result Text)
  invite_created i existing_mas = do
    a ← apply_template kc i.user_id i.template
    try_then (reactivate_existing i existing_mas) λ _. send_invite i a

  module _ (homeserver_domain : Text) (requested_by : Option Text)
      (template : Option OnboardingTemplate) where
    unfoldable pub invite_absent : ValidatedInviteEmail → Option KeycloakUser → Exec W (Result Text)
    invite_absent v (some existing) = pure (err (already_exists v.email existing))
    invite_absent v none = do
      found ← Mas.get_user_by_username mas v.local
      try_then (Keycloak.create_user kc v.local v.email) λ user_id.
          invite_created
            (record {
              email = v.email;
              user_id = user_id;
              matrix_user_id = matrix_id v.local homeserver_domain;
              requested_by = requested_by;
              template = template;
            })
            (found_user found)

    unfoldable pub invite_checked : Result ValidatedInviteEmail → Exec W (Result Text)
    invite_checked (err e) = pure (err e)
    invite_checked (ok v) =
        try_then (Keycloak.get_user_by_email kc v.email) λ existing. invite_absent v existing

    unfoldable pub invite_user : (Text → Text) → Text → Option (List Text) → Exec W (Result Text)
    invite_user normalise raw_email allowed =
        invite_checked (check_validated allowed (validate_invite_email normalise raw_email))
