-- ===== src/Workflows/Reports.antt =====
-- src/services/disable_user.rs, reactivate_user.rs, delete_user.rs and offboard_user.rs: what a
-- result tells of the failures in the run.
use mathlib.Core.Bool.{and-true, and-false}
use matrix_identity_admin.Prelude.{
  ap, List, [], ◌∷◌, Option, none, some, Bool, true, false, ◌&&◌, ◌≡◌, refl, sym, ◌∙◌, arith,
  is_some, is_empty,
}
use matrix_identity_admin.Text.{Text}
use matrix_identity_admin.Models.Error.{Result, Done, ok, err, is_ok}
use matrix_identity_admin.Models.Workflow.{
  WorkflowOutcome, no_warnings, warn_on, extend, clean, clean-add_warning, clean-extend,
  clean-warn_on, spotless,
}
use matrix_identity_admin.Models.Accounts.{MasUser}
use matrix_identity_admin.Models.Policy.{PolicyBinding}
use matrix_identity_admin.Effects.Event.{Op, all_ok}
use matrix_identity_admin.Effects.Exec.{World, Exec, pure}
use matrix_identity_admin.Effects.Clients.{KeycloakIdentityProvider, AuthService, MatrixService}
use matrix_identity_admin.Effects.Reports.{
  Reports, Reports-pure, Reports-if, Reports-from, Reports-call_if, Reports-bind, Reports-or_return,
  Reports-try_then,
}
use matrix_identity_admin.Effects.Clients.Keycloak
use matrix_identity_admin.AuditService.{AuditService, Actor}
use matrix_identity_admin.Lifecycle.{Subject}
use matrix_identity_admin.Lifecycle.Reports.{
  logged-Reports, revoke_auth_sessions-Reports, force_identity_logout-Reports,
  enable_identity_account-Reports, disable_identity_account-Reports,
  deactivate_auth_account-Reports, reactivate_auth_account-Reports,
}
use matrix_identity_admin.Lifecycle.KickReports.{kick_from_all_mapped_rooms-Reports}
use matrix_identity_admin.Workflows.{
  DeleteUserResult, subject_of, found_user, lookup_failed, leftover_account, deactivation_skipped,
  disable_user, reactivate_user, delete_user, offboard_user, reactivate_deactivated,
  reactivate_found, conclude_delete, deactivate_first, delete_keycloak, clean_rooms,
  deactivate_found, offboard_disabled,
}

-- A deletion that was complete and has nothing to report.
abbrev pub deleted_cleanly : Result DeleteUserResult → Bool
deleted_cleanly (ok (DeleteUserResult.deleted o)) = clean o
deleted_cleanly _ = false

deleted_cleanly-conclude :
    (found : Bool) (o : WorkflowOutcome) (r : Done)
    → deleted_cleanly (conclude_delete found o r) ≡ (clean o && is_ok r)
unfolding conclude_delete
deleted_cleanly-conclude found o (ok _) = sym (and-true (clean o))
deleted_cleanly-conclude true o (err e) = sym (and-false (clean o))
deleted_cleanly-conclude false o (err e) = sym (and-false (clean o))

module _ {W : Type 0} (kc : KeycloakIdentityProvider W) (mas : AuthService W)
    (audit : AuditService W) (who : Actor) (domain : Text) where
  -- A fatal step, after which the collected outcome is what is left to return.
  fatal-Reports :
      (o : WorkflowOutcome) (m : Exec W Done)
      → Reports is_ok true m
      → Reports (λ r. clean o && is_ok r) (clean o) m
  fatal-Reports o m h = record { at = λ w. ground (arith, h.at w) }

  -- A non-fatal step, whose warnings are added to those collected.
  extend-Reports :
      (o : WorkflowOutcome) (m : Exec W WorkflowOutcome)
      → Reports clean true m
      → Reports (λ more. clean (extend o more.warnings)) (clean o) m
  extend-Reports o m h = record {
    at = λ w. ground (arith, clean-extend o (m w).value.warnings, h.at w);
  }

  reactivate_found-Reports :
      (user : Subject) (o : WorkflowOutcome) (found : Option MasUser)
      → Reports spotless (clean o) (reactivate_found kc mas audit who domain user o found)
  unfolding reactivate_found reactivate_deactivated
  reactivate_found-Reports user o none = Reports-pure spotless (clean o) _ refl
  reactivate_found-Reports user o (some u) =
      Reports-if spotless (clean o) (is_some u.deactivated_at)
        (reactivate_deactivated kc mas audit who domain user o u) (pure (ok o))
        (Reports-bind (λ more. clean (extend o more.warnings)) spotless (clean o) _ _
          (extend-Reports o _ (reactivate_auth_account-Reports audit who user mas _ u.id))
          λ more. Reports-pure spotless _ _ refl)
        (Reports-pure spotless (clean o) _ refl)

  deactivate_first-Reports :
      (user : Subject) (found : Option MasUser)
      → Reports is_ok true (deactivate_first kc mas audit who domain user found)
  unfolding deactivate_first
  deactivate_first-Reports user none = Reports-pure is_ok true _ refl
  deactivate_first-Reports user (some u) =
      logged-Reports audit who user _ _ is_ok true (Op.deactivate_user u.id) _ _ _ _ λ r l.
        Reports-or_return is_ok (is_ok r) _ l (λ _. Reports-pure is_ok (is_ok r) r refl) (λ e. refl)

  delete_keycloak-Reports :
      (user : Subject) (o : WorkflowOutcome) (found : Option MasUser)
      → Reports deleted_cleanly (clean o) (delete_keycloak kc mas audit who domain user o found)
  unfolding delete_keycloak
  delete_keycloak-Reports user o found =
      logged-Reports audit who user _ _ deleted_cleanly (clean o) (Op.delete_user user.keycloak_id)
        _ _ _ _
        λ r l.
          Reports-or_return deleted_cleanly (clean o && is_ok r) _ l
            (λ _. Reports-pure deleted_cleanly _ _ (deleted_cleanly-conclude (is_some found) o r))
            (λ e. refl)

  deactivate_found-Reports :
      (user : Subject) (o : WorkflowOutcome) (found : Option MasUser)
      → Reports spotless (clean o) (deactivate_found kc mas audit who domain user o found)
  unfolding deactivate_found
  deactivate_found-Reports user o none = Reports-pure spotless (clean o) _ refl
  deactivate_found-Reports user o (some u) =
      Reports-try_then spotless (clean o) _ _
        (fatal-Reports o _ (deactivate_auth_account-Reports audit who user mas _ u.id))
        (λ _. Reports-pure spotless (clean o) _ refl) (λ e. refl)

  -- Whether the rooms can be cleaned up: there is a connector, or there are no bindings.
  abbrev pub cleanable : Option (MatrixService W) → List PolicyBinding → Bool
  cleanable (some s) bindings = true
  cleanable none bindings = is_empty bindings

  clean_rooms-Reports :
      (synapse : Option (MatrixService W)) (user : Subject) (bindings : List PolicyBinding)
      (o : WorkflowOutcome)
      → Reports clean
          (clean o && cleanable synapse bindings)
          (clean_rooms kc mas audit who domain synapse user bindings o)
  unfolding clean_rooms
  clean_rooms-Reports (some s) user bindings o =
      Reports-from clean (clean o) (clean o && true) _ (sym (and-true (clean o))) (
        Reports-bind (λ more. clean (extend o more.warnings)) clean (clean o) _ _
          (extend-Reports o _ (kick_from_all_mapped_rooms-Reports audit who user s _ bindings))
          λ more. Reports-pure clean _ _ refl)
  clean_rooms-Reports none user [] o = Reports-pure clean _ _ (sym (and-true (clean o)))
  clean_rooms-Reports none user (b ∷ bs) o =
      Reports-pure clean _ _ (clean-add_warning o _ ∙ sym (and-false (clean o)))

  offboard_disabled-Reports :
      (synapse : Option (MatrixService W)) (bindings : List PolicyBinding) (user : Subject)
      (o : WorkflowOutcome)
      → Reports spotless
          (clean o && cleanable synapse bindings)
          (offboard_disabled kc mas audit who domain synapse bindings user o)
  unfolding offboard_disabled
  offboard_disabled-Reports synapse bindings user o =
      Reports-bind clean spotless _ _ _ (clean_rooms-Reports synapse user bindings o) λ cleaned.
        Reports-bind (λ r. clean cleaned && is_ok r) spotless (clean cleaned) _ _
          (Reports-call_if (clean cleaned) (Op.get_user_by_username user.username) is_ok _)
          λ found.
            Reports-from spotless _ _ _ (clean-warn_on found deactivation_skipped cleaned)
              (deactivate_found-Reports user _ _)

  module _ (keycloak_id : Text) (w : World W) where
    first : Reports is_ok true (Keycloak.get_user kc keycloak_id)
    first = Reports-call_if true (Op.get_user keycloak_id) is_ok _

    -- `disable_user` returns an outcome with no warning exactly when every call of a service and
    -- every audit write of its run succeeded.
    disable_user-Reports :
        let r = disable_user kc mas audit who domain keycloak_id w in
        spotless r.value ≡ all_ok r.events
    unfolding disable_user
    disable_user-Reports =
        (Reports-try_then spotless true _ _ first
            (λ u.
              Reports-bind clean spotless true _ _
                (revoke_auth_sessions-Reports audit who (subject_of domain keycloak_id u) mas _)
                λ o.
                  Reports-try_then spotless (clean o) _ _
                    (fatal-Reports o _ (
                      disable_identity_account-Reports audit who (subject_of domain keycloak_id u)
                        kc _))
                    (λ _. Reports-pure spotless (clean o) _ refl) (λ e. refl))
            (λ e. refl)).at
          w

    -- `reactivate_user` returns an outcome with no warning exactly when every call of a service and
    -- every audit write of its run succeeded.
    reactivate_user-Reports :
        let r = reactivate_user kc mas audit who domain keycloak_id w in
        spotless r.value ≡ all_ok r.events
    unfolding reactivate_user
    reactivate_user-Reports =
        (Reports-try_then spotless true _ _ first
            (λ u.
              Reports-try_then spotless true _ _
                (enable_identity_account-Reports audit who (subject_of domain keycloak_id u) kc _)
                (λ _.
                  Reports-bind is_ok spotless true _ _
                    (Reports-call_if true (Op.get_user_by_username u.username) is_ok
                      (mas.get_user_by_username u.username))
                    λ found.
                      Reports-from spotless _ _ _ (clean-warn_on found lookup_failed no_warnings) (
                        reactivate_found-Reports (subject_of domain keycloak_id u) _
                          (found_user found)))
                (λ e. refl))
            (λ e. refl)).at
          w

    -- `delete_user` returns `Deleted` with no warning exactly when every call of a service and
    -- every audit write of its run succeeded.
    delete_user-Reports :
        let r = delete_user kc mas audit who domain keycloak_id w in
        deleted_cleanly r.value ≡ all_ok r.events
    unfolding delete_user
    delete_user-Reports =
        (Reports-try_then deleted_cleanly true _ _ first
            (λ u.
              Reports-bind is_ok deleted_cleanly true _ _
                (Reports-call_if true (Op.get_user_by_username u.username) is_ok
                  (mas.get_user_by_username u.username))
                λ found.
                  let o = warn_on found leftover_account no_warnings in
                  Reports-from deleted_cleanly _ _ _
                    (clean-warn_on found leftover_account no_warnings)
                    (Reports-try_then deleted_cleanly (clean o) _ _
                      (fatal-Reports o _ (
                        deactivate_first-Reports (subject_of domain keycloak_id u)
                          (found_user found)))
                      (λ _.
                        delete_keycloak-Reports (subject_of domain keycloak_id u) o
                          (found_user found))
                      (λ e. refl)))
            (λ e. refl)).at
          w

    -- `disable_user` and `reactivate_user` return an outcome with no warning, and `delete_user`
    -- returns `Deleted` with no warning, exactly when every call of a service and every audit
    -- write of the run succeeded.
    pub workflows-Reports :
        (let r = disable_user kc mas audit who domain keycloak_id w in
          spotless r.value ≡ all_ok r.events)
        × (let r = reactivate_user kc mas audit who domain keycloak_id w in
            spotless r.value ≡ all_ok r.events)
        × (let r = delete_user kc mas audit who domain keycloak_id w in
            deleted_cleanly r.value ≡ all_ok r.events)
    workflows-Reports = (disable_user-Reports, reactivate_user-Reports, delete_user-Reports)

    -- `offboard_user` with a Matrix connector, or with no bindings, returns an outcome with no
    -- warning exactly when every call of a service and every audit write of its run succeeded.
    pub offboard_user-Reports :
        (synapse : Option (MatrixService W)) (bindings : List PolicyBinding)
        → cleanable synapse bindings ≡ true
        → let r = offboard_user kc mas audit who domain synapse bindings keycloak_id w in
          spotless r.value ≡ all_ok r.events
    unfolding offboard_user
    offboard_user-Reports synapse bindings connected =
        (Reports-try_then spotless true _ _ first
            (λ u.
              let user = subject_of domain keycloak_id u in
              Reports-bind clean spotless true _ _
                (revoke_auth_sessions-Reports audit who user mas _)
                λ o.
                  Reports-bind (λ more. clean (extend o more.warnings)) spotless (clean o) _ _
                    (extend-Reports o _ (force_identity_logout-Reports audit who user kc _))
                    λ more.
                      let o' = extend o more.warnings in
                      Reports-try_then spotless (clean o') _ _
                        (fatal-Reports o' _ (disable_identity_account-Reports audit who user kc _))
                        (λ _.
                          Reports-from spotless _ _ _
                            (ap (λ b. clean o' && b) connected ∙ and-true (clean o'))
                            (offboard_disabled-Reports synapse bindings user o'))
                        (λ e. refl))
            (λ e. refl)).at
          w
