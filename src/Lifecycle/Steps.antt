-- ===== src/Lifecycle/Steps.antt =====
-- src/services/lifecycle_steps.rs, for any property of runs that `Observes` the calls of a step.
use matrix_identity_admin.Prelude.{List, [], ◌∷◌, Option, none, some, Bool, true, ◌≡◌, refl}
use matrix_identity_admin.Text.{Text}
use matrix_identity_admin.Models.Error.{Result, ok, err, is_ok}
use matrix_identity_admin.Models.Workflow.{WorkflowOutcome, warn_on}
use matrix_identity_admin.Models.Accounts.{MasUser, MasSession, SessionListResult}
use matrix_identity_admin.Effects.Event.{Op, Kind}
use matrix_identity_admin.Effects.Rules.{Trace, Holds, Holds-pure, Holds-bind, Holds-or_return}
use matrix_identity_admin.Effects.Clients.{KeycloakIdentityProvider, AuthService, is_complete}
use matrix_identity_admin.AuditService.{AuditService, Actor}
use matrix_identity_admin.Lifecycle.{
  Subject, audit_failed, not_revoked, revoke_each, revoke_listed, revoke_found,
  revoke_auth_sessions, force_identity_logout, disable_identity_account, enable_identity_account,
  deactivate_auth_account, reactivate_auth_account,
}
use matrix_identity_admin.Lifecycle.Observes.{Observes}

module _ {W : Type 0} (T : Trace W) (audit : AuditService W) (who : Actor) (user : Subject)
    (allowed : Kind → Bool) (o : Observes T audit who user allowed)
    (reads : allowed Kind.reading ≡ true) where
  module _ (mas : AuthService W) (finishes : allowed Kind.session ≡ true) where
    pub revoke_each-Holds :
        (action : Text) (outcome : WorkflowOutcome) (sessions : List MasSession)
        → Holds T (revoke_each audit who mas user action outcome sessions)
    unfolding revoke_each
    revoke_each-Holds action outcome [] = Holds-pure T outcome
    revoke_each-Holds action outcome (s ∷ rest) =
        o.logged Unit _ (Op.finish_session s.id s.session_type) _ _ _ _ refl finishes λ r l.
          revoke_each-Holds action (warn_on r (not_revoked s) (warn_on l audit_failed outcome)) rest

    revoke_listed-Holds :
        (context : Text) (r : Result SessionListResult)
        → Holds T (revoke_listed audit who mas context user r)
    unfolding revoke_listed
    revoke_listed-Holds context (err e) = Holds-pure T _
    revoke_listed-Holds context (ok l) = revoke_each-Holds _ _ _

    revoke_found-Holds :
        (context : Text) (r : Result (Option MasUser))
        → Holds T (revoke_found audit who mas context user r)
    unfolding revoke_found
    revoke_found-Holds context (err e) = Holds-pure T _
    revoke_found-Holds context (ok none) = Holds-pure T _
    revoke_found-Holds context (ok (some u)) =
        Holds-bind T _ _ (o.plain _ (Op.list_sessions u.id) is_complete _ refl reads)
          (revoke_listed-Holds context)

    pub revoke_auth_sessions-Holds :
        (context : Text) → Holds T (revoke_auth_sessions audit who mas context user)
    unfolding revoke_auth_sessions
    revoke_auth_sessions-Holds context =
        Holds-bind T _ _ (o.plain _ (Op.get_user_by_username user.username) is_ok _ refl reads)
          (revoke_found-Holds context)

  pub force_identity_logout-Holds :
      (kc : KeycloakIdentityProvider W) (context : Text)
      → allowed Kind.logout ≡ true
      → Holds T (force_identity_logout audit who kc context user)
  unfolding force_identity_logout
  force_identity_logout-Holds kc context h =
      o.logged _ _ (Op.logout_user user.keycloak_id) _ _ _ _ refl h λ r l. Holds-pure T _

  pub disable_identity_account-Holds :
      (kc : KeycloakIdentityProvider W) (context : Text)
      → allowed Kind.disabling ≡ true
      → Holds T (disable_identity_account audit who kc context user)
  unfolding disable_identity_account
  disable_identity_account-Holds kc context h =
      o.logged _ _ (Op.disable_user user.keycloak_id) _ _ _ _ refl h
        λ r l. Holds-or_return T _ l λ _. Holds-pure T r

  pub enable_identity_account-Holds :
      (kc : KeycloakIdentityProvider W) (context : Text)
      → allowed Kind.enabling ≡ true
      → Holds T (enable_identity_account audit who kc context user)
  unfolding enable_identity_account
  enable_identity_account-Holds kc context h =
      o.logged _ _ (Op.enable_user user.keycloak_id) _ _ _ _ refl h
        λ r l. Holds-or_return T _ l λ _. Holds-pure T r

  pub deactivate_auth_account-Holds :
      (mas : AuthService W) (context auth_user_id : Text)
      → allowed Kind.deactivation ≡ true
      → Holds T (deactivate_auth_account audit who mas context user auth_user_id)
  unfolding deactivate_auth_account
  deactivate_auth_account-Holds mas context auth_user_id h =
      o.logged _ _ (Op.deactivate_user auth_user_id) _ _ _ _ refl h
        λ r l. Holds-or_return T _ l λ _. Holds-pure T r

  pub reactivate_auth_account-Holds :
      (mas : AuthService W) (context auth_user_id : Text)
      → allowed Kind.reactivation ≡ true
      → Holds T (reactivate_auth_account audit who mas context user auth_user_id)
  unfolding reactivate_auth_account
  reactivate_auth_account-Holds mas context auth_user_id h =
      o.logged _ _ (Op.reactivate_user auth_user_id) _ _ _ _ refl h λ r l. Holds-pure T _
