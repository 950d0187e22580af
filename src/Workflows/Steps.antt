-- ===== src/Workflows/Steps.antt =====
-- src/services/disable_user.rs and the other workflows, for any property of runs that `Observes`
-- their calls.
use matrix_identity_admin.Prelude.{List, Option, none, some, Bool, true, ◌≡◌, refl, is_some}
use matrix_identity_admin.Text.{Text}
use matrix_identity_admin.Models.Error.{ok, is_ok}
use matrix_identity_admin.Models.Workflow.{WorkflowOutcome}
use matrix_identity_admin.Models.Accounts.{MasUser, KeycloakUser}
use matrix_identity_admin.Models.Policy.{PolicyBinding}
use matrix_identity_admin.Effects.Event.{Op, Kind}
use matrix_identity_admin.Effects.Exec.{pure}
use matrix_identity_admin.Effects.Rules.{
  Trace, Holds, Holds-pure, Holds-bind, Holds-or_return, Holds-try_then, Holds-if,
}
use matrix_identity_admin.Effects.Clients.{KeycloakIdentityProvider, AuthService, MatrixService}
use matrix_identity_admin.Effects.Clients.Keycloak
use matrix_identity_admin.AuditService.{AuditService, Actor}
use matrix_identity_admin.Lifecycle.{Subject}
use matrix_identity_admin.Lifecycle.Observes.{Observes}
use matrix_identity_admin.Lifecycle.Steps.{
  revoke_auth_sessions-Holds, force_identity_logout-Holds, disable_identity_account-Holds,
  enable_identity_account-Holds, deactivate_auth_account-Holds, reactivate_auth_account-Holds,
}
use matrix_identity_admin.Lifecycle.KickSteps.{kick_from_all_mapped_rooms-Holds}
use matrix_identity_admin.Workflows.{
  subject_of, found_user, disable_user, reactivate_found, reactivate_deactivated, reactivate_user,
  deactivate_first, delete_keycloak, delete_user, clean_rooms, deactivate_found, offboard_disabled,
  offboard_user,
}

abbrev pub everything : Kind → Bool
everything k = true

module _ {W : Type 0} (T : Trace W) (kc : KeycloakIdentityProvider W) (mas : AuthService W)
    (audit : AuditService W) (who : Actor) (domain : Text) where
  module _ (user : Subject) (allowed : Kind → Bool) (o : Observes T audit who user allowed)
      (reads : allowed Kind.reading ≡ true) (deactivates : allowed Kind.deactivation ≡ true) where
    clean_rooms-Holds :
        allowed Kind.kick ≡ true
        → (synapse : Option (MatrixService W)) (bindings : List PolicyBinding) (w : WorkflowOutcome)
        → Holds T (clean_rooms kc mas audit who domain synapse user bindings w)
    unfolding clean_rooms
    clean_rooms-Holds kicks none bindings w = Holds-pure T _
    clean_rooms-Holds kicks (some synapse) bindings w =
        Holds-bind T _ _
          (kick_from_all_mapped_rooms-Holds T audit who user allowed o reads kicks synapse _
            bindings)
          λ kicked. Holds-pure T _

    deactivate_found-Holds :
        (w : WorkflowOutcome) (found : Option MasUser)
        → Holds T (deactivate_found kc mas audit who domain user w found)
    unfolding deactivate_found
    deactivate_found-Holds w none = Holds-pure T _
    deactivate_found-Holds w (some u) =
        Holds-try_then T _ _
          (deactivate_auth_account-Holds T audit who user allowed o reads mas _ u.id deactivates)
          λ _. Holds-pure T _

    pub offboard_disabled-Holds :
        allowed Kind.kick ≡ true
        → (synapse : Option (MatrixService W)) (bindings : List PolicyBinding) (w : WorkflowOutcome)
        → Holds T (offboard_disabled kc mas audit who domain synapse bindings user w)
    unfolding offboard_disabled
    offboard_disabled-Holds kicks synapse bindings w =
        Holds-bind T _ _ (clean_rooms-Holds kicks synapse bindings w) λ cleaned.
          Holds-bind T _ _ (o.plain _ (Op.get_user_by_username user.username) is_ok _ refl reads)
            λ found. deactivate_found-Holds _ _

    deactivate_first-Holds :
        (found : Option MasUser) → Holds T (deactivate_first kc mas audit who domain user found)
    unfolding deactivate_first
    deactivate_first-Holds none = Holds-pure T _
    deactivate_first-Holds (some u) =
        o.logged _ _ (Op.deactivate_user u.id) _ _ _ _ refl deactivates
          λ r l. Holds-or_return T _ l λ _. Holds-pure T r

  module _ (keycloak_id : Text)
      (o : (u : KeycloakUser) → Observes T audit who (subject_of domain keycloak_id u) everything)
      (first : Holds T (Keycloak.get_user kc keycloak_id)) where
    pub disable_user-Holds : Holds T (disable_user kc mas audit who domain keycloak_id)
    unfolding disable_user
    disable_user-Holds = Holds-try_then T _ _ first λ u.
        Holds-bind T _ _ (revoke_auth_sessions-Holds T audit who _ everything (o u) refl mas refl _)
          λ revoked.
            Holds-try_then T _ _
              (disable_identity_account-Holds T audit who _ everything (o u) refl kc _ refl)
              λ _. Holds-pure T _

    reactivate_found-Holds :
        (u : KeycloakUser) (w : WorkflowOutcome) (found : Option MasUser)
        → Holds T
            (reactivate_found kc mas audit who domain (subject_of domain keycloak_id u) w found)
    unfolding reactivate_found reactivate_deactivated
    reactivate_found-Holds u w none = Holds-pure T _
    reactivate_found-Holds u w (some m) =
        Holds-if T (is_some m.deactivated_at)
          (reactivate_deactivated kc mas audit who domain (subject_of domain keycloak_id u) w m)
          (pure (ok w))
          (Holds-bind T _ _
            (reactivate_auth_account-Holds T audit who _ everything (o u) refl mas _ m.id refl)
            λ reactivated. Holds-pure T _)
          (Holds-pure T _)

    pub reactivate_user-Holds : Holds T (reactivate_user kc mas audit who domain keycloak_id)
    unfolding reactivate_user
    reactivate_user-Holds = Holds-try_then T _ _ first λ u.
        Holds-try_then T _ _
          (enable_identity_account-Holds T audit who _ everything (o u) refl kc _ refl)
          λ _.
            Holds-bind T _ _ ((o u).plain _ (Op.get_user_by_username u.username) is_ok _ refl refl)
              λ found. reactivate_found-Holds u _ _

    pub delete_user-Holds : Holds T (delete_user kc mas audit who domain keycloak_id)
    unfolding delete_user delete_keycloak
    delete_user-Holds = Holds-try_then T _ _ first λ u.
        Holds-bind T _ _ ((o u).plain _ (Op.get_user_by_username u.username) is_ok _ refl refl)
          λ found.
            Holds-try_then T _ _
              (deactivate_first-Holds _ everything (o u) refl refl (found_user found))
              λ _.
                (o u).logged _ _ (Op.delete_user keycloak_id) _ _ _ _ refl refl
                  λ r l. Holds-or_return T _ l λ _. Holds-pure T _

    pub offboard_user-Holds :
        (synapse : Option (MatrixService W)) (bindings : List PolicyBinding)
        → Holds T (offboard_user kc mas audit who domain synapse bindings keycloak_id)
    unfolding offboard_user
    offboard_user-Holds synapse bindings = Holds-try_then T _ _ first λ u.
        Holds-bind T _ _ (revoke_auth_sessions-Holds T audit who _ everything (o u) refl mas refl _)
          λ revoked.
            Holds-bind T _ _
              (force_identity_logout-Holds T audit who _ everything (o u) refl kc _ refl)
              λ logged_out.
                Holds-try_then T _ _
                  (disable_identity_account-Holds T audit who _ everything (o u) refl kc _ refl)
                  λ _. offboard_disabled-Holds _ everything (o u) refl refl refl synapse bindings _
