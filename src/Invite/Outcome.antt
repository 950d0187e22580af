-- ===== src/Invite/Outcome.antt =====
-- src/services/invite_user.rs: the result of an invitation and its events.
use matrix_identity_admin.Prelude.{
  List, [], ◌∷◌, Option, none, some, false, not, ◌&&◌, ◌||◌, ◌≡◌, refl, arith, is_some,
}
use matrix_identity_admin.Text.{Text}
use matrix_identity_admin.Models.Error.{Result, Done, ok, err, is_ok}
use matrix_identity_admin.Models.Accounts.{
  KeycloakUser, KeycloakGroup, KeycloakRole, MasUser, OnboardingTemplate,
}
use matrix_identity_admin.Effects.Exec.{World, pure, or_return, try_then, ◌>>=◌}
use matrix_identity_admin.Effects.Clients.{KeycloakIdentityProvider, AuthService}
use matrix_identity_admin.AuditService.{AuditService, Actor, log, insert}
use matrix_identity_admin.InviteEmail.{ValidatedInviteEmail}
use matrix_identity_admin.Onboarding.{
  Assignment, nothing_assigned, assign_group, assign_groups, apply_groups, assign_matched,
  apply_roles, apply_template,
}
use matrix_identity_admin.Invite.{
  Invitation, reactivate_mas, reactivate_existing, send_invite, invite_created, invite_absent,
  invite_checked, invite_user,
}
use matrix_identity_admin.Invite.Rules.{
  of_audit, some_ok, some_failed, Fatal, Ends, sent, of_invitation, always, Fatal-pure, Fatal-if,
  Fatal-bind, Ends-bind, Ends-try_then,
}

module _ {W : Type 0} (kc : KeycloakIdentityProvider W) where
  assign_group-Fatal :
      (id name : Text) (a : Assignment) (g : Option KeycloakGroup)
      → Fatal always (assign_group kc id name a g)
  unfolding assign_group
  assign_group-Fatal id name a none = Fatal-pure always _
  assign_group-Fatal id name a (some g) =
      Fatal-bind always _ _ (record { at = λ w. (refl, refl) }) λ r. Fatal-pure always _

  assign_groups-Fatal :
      (id : Text) (all_groups : List KeycloakGroup) (names : List Text) (a : Assignment)
      → Fatal always (assign_groups kc id all_groups a names)
  unfolding assign_groups
  assign_groups-Fatal id all_groups [] a = Fatal-pure always a
  assign_groups-Fatal id all_groups (name ∷ names) a =
      Fatal-bind always _ _ (assign_group-Fatal id name a _)
        λ more. assign_groups-Fatal id all_groups names more

  apply_groups-Fatal :
      (id : Text) (names : List Text) (a : Assignment) → Fatal always (apply_groups kc id names a)
  unfolding apply_groups
  apply_groups-Fatal id [] a = Fatal-pure always a
  apply_groups-Fatal id (name ∷ names) a =
      Fatal-bind always _ _ (record { at = λ w. (refl, refl) })
        λ r. assign_groups-Fatal id _ (name ∷ names) a

  assign_matched-Fatal :
      (id : Text) (roles : List KeycloakRole) (a : Assignment)
      → Fatal always (assign_matched kc id roles a)
  unfolding assign_matched
  assign_matched-Fatal id [] a = Fatal-pure always a
  assign_matched-Fatal id (r ∷ rs) a =
      Fatal-bind always _ _ (record { at = λ w. (refl, refl) }) λ r. Fatal-pure always _

  apply_roles-Fatal :
      (id : Text) (names : List Text) (a : Assignment) → Fatal always (apply_roles kc id names a)
  unfolding apply_roles
  apply_roles-Fatal id [] a = Fatal-pure always a
  apply_roles-Fatal id (name ∷ names) a =
      Fatal-bind always _ _ (record { at = λ w. (refl, refl) }) λ r. assign_matched-Fatal id _ _

  apply_template-Fatal :
      (id : Text) (template : Option OnboardingTemplate)
      → Fatal always (apply_template kc id template)
  unfolding apply_template
  apply_template-Fatal id none = Fatal-pure always _
  apply_template-Fatal id (some t) =
      Fatal-bind always _ _ (apply_groups-Fatal id t.groups nothing_assigned)
        λ a. apply_roles-Fatal id t.roles a

module _ {W : Type 0} (kc : KeycloakIdentityProvider W) (mas : AuthService W)
    (audit : AuditService W) (who : Actor) where
  reactivated-Quiet :
      (r l : Done) (v : World W)
      → let s = or_return {W = W} (λ _. pure r) l v in
        (some_ok of_invitation s.events ≡ false)
        × ((is_ok s.value && (not (is_ok l) || some_failed of_audit s.events)) ≡ false)
  unfolding or_return
  reactivated-Quiet r (ok _) v = (refl, ground arith)
  reactivated-Quiet r (err e) v = (refl, refl)

  reactivate_mas-Fatal :
      (i : Invitation) (u : MasUser) → Fatal is_ok (reactivate_mas kc mas audit who i u)
  unfolding reactivate_mas log insert ◌>>=◌
  reactivate_mas-Fatal i u = record { at = λ w. reactivated-Quiet _ _ _ }

  reactivate_existing-Fatal :
      (i : Invitation) (found : Option MasUser)
      → Fatal is_ok (reactivate_existing kc mas audit who i found)
  unfolding reactivate_existing
  reactivate_existing-Fatal i none = Fatal-pure is_ok _
  reactivate_existing-Fatal i (some u) =
      Fatal-if is_ok (is_some u.deactivated_at) (reactivate_mas kc mas audit who i u) (pure (ok tt))
        (reactivate_mas-Fatal i u) (Fatal-pure is_ok _)

  mailed :
      (message : Text) (r l : Done) (v : World W)
      → let s = or_return {W = W} (λ _. try_then (pure r) (λ _. pure (ok message))) l v in
        is_ok s.value ≡ (
          (is_ok r || some_ok of_invitation s.events)
          && not (not (is_ok l) || some_failed of_audit s.events))
  unfolding or_return ◌>>=◌
  mailed message (ok _) (ok _) v = refl
  mailed message (err e) (ok _) v = refl
  mailed message (ok _) (err e) v = refl
  mailed message (err f) (err e) v = refl

  send_invite-Ends : (i : Invitation) (a : Assignment) → Ends (send_invite kc mas audit who i a)
  unfolding send_invite log insert ◌>>=◌
  send_invite-Ends i a = record { at = λ w. mailed _ _ _ _ }

  invite_created-Ends :
      (i : Invitation) (found : Option MasUser) → Ends (invite_created kc mas audit who i found)
  unfolding invite_created
  invite_created-Ends i found =
      Ends-bind _ _ (apply_template-Fatal kc i.user_id i.template)
        λ a. Ends-try_then _ _ (reactivate_existing-Fatal i found) λ _. send_invite-Ends i a

  module _ (homeserver_domain : Text) (requested_by : Option Text)
      (template : Option OnboardingTemplate) where
    invite_absent-Ends :
        (v : ValidatedInviteEmail) (existing : Option KeycloakUser)
        → Ends (invite_absent kc mas audit who homeserver_domain requested_by template v existing)
    unfolding invite_absent
    invite_absent-Ends v (some existing) = record { at = λ w. refl }
    invite_absent-Ends v none =
        Ends-bind _ _ (record { at = λ w. (refl, refl) })
          λ found.
            Ends-try_then _ _ (record { at = λ w. (refl, ground arith) })
              λ id. invite_created-Ends _ _

    invite_checked-Ends :
        (v : Result ValidatedInviteEmail)
        → Ends (invite_checked kc mas audit who homeserver_domain requested_by template v)
    unfolding invite_checked
    invite_checked-Ends (err e) = record { at = λ w. refl }
    invite_checked-Ends (ok v) =
        Ends-try_then _ _ (record { at = λ w. (refl, ground arith) })
          λ existing. invite_absent-Ends v existing

    -- A run of `invite_user`, from any world and whatever the services answer, returns a success
    -- exactly when Keycloak sent the invitation mail and no write of an audit entry failed.
    pub invite_user-Ends :
        (normalise : Text → Text) (raw_email : Text) (allowed : Option (List Text)) (w : World W)
        → let r =
            invite_user kc mas audit who homeserver_domain requested_by template normalise raw_email
              allowed w in
          is_ok r.value ≡ sent r.events
    unfolding invite_user
    invite_user-Ends normalise raw_email allowed w = (invite_checked-Ends _).at w
