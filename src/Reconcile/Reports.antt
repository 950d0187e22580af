-- ===== src/Reconcile/Reports.antt =====
-- src/services/reconcile_membership.rs: what the result tells of the failures in a run.
use mathlib.Core.Bool.{and-true, and-false}
use matrix_identity_admin.Prelude.{
  List, [], ◌∷◌, Option, none, some, Bool, true, false, ◌&&◌, ◌≡◌, refl, sym, ◌∙◌, arith,
}
use matrix_identity_admin.Text.{Text, ℤ, contains}
use matrix_identity_admin.Models.Error.{Result, ok, err, is_ok}
use matrix_identity_admin.Models.Workflow.{
  WorkflowOutcome, no_warnings, warn_on, clean, clean-add_warning, clean-warn_on, spotless,
}
use matrix_identity_admin.Models.Policy.{PolicyBinding, room_id}
use matrix_identity_admin.Effects.Event.{Op, all_ok}
use matrix_identity_admin.Effects.Exec.{World, pure}
use matrix_identity_admin.Effects.Clients.{MatrixService}
use matrix_identity_admin.Effects.Reports.{
  Reports, Reports-pure, Reports-if, Reports-from, Reports-call_if, Reports-bind,
}
use matrix_identity_admin.AuditService.{AuditService, Actor}
use matrix_identity_admin.Lifecycle.{Subject, audit_failed}
use matrix_identity_admin.Lifecycle.Kick.{children_failed, members_failed}
use matrix_identity_admin.Lifecycle.Reports.{logged-Reports}
use matrix_identity_admin.Lifecycle.KickReports.{kick_each-Reports}
use matrix_identity_admin.Reconcile.{
  expand_targets, level_failed, set_level, joined, join_absent, join_listed, join_each,
  kick_unmatched, apply_binding, reconcile_each, reconcile_membership,
}

module _ {W : Type 0} (audit : AuditService W) (who : Actor) (user : Subject)
    (synapse : MatrixService W) where
  set_level-Reports :
      (level : Option ℤ) (o : WorkflowOutcome) (room : Text)
      → Reports clean (clean o) (set_level audit who synapse user level o room)
  unfolding set_level
  set_level-Reports none o room = Reports-pure clean (clean o) o refl
  set_level-Reports (some level) o room =
      Reports-bind (λ r. clean o && is_ok r) clean (clean o) _ _
        (Reports-call_if (clean o) (Op.set_power_level room user.matrix_user_id level) is_ok _)
        λ r.
          Reports-pure clean _ _ (clean-warn_on r (level_failed user.matrix_user_id room level) o)

  joined-Reports :
      (binding : PolicyBinding) (o : WorkflowOutcome) (room : Text) (r : Result (Unit {0}))
      → Reports clean (clean o && is_ok r) (joined audit who synapse user binding o room r)
  unfolding joined
  joined-Reports binding o room (err e) =
      Reports-pure clean (clean o && false) _ (clean-add_warning o _ ∙ sym (and-false (clean o)))
  joined-Reports binding o room (ok _) =
      Reports-from clean (clean o) (clean o && true) _ (sym (and-true (clean o)))
        (set_level-Reports binding.power_level o room)

  join_absent-Reports :
      (binding : PolicyBinding) (o : WorkflowOutcome) (room : Text)
      → Reports clean (clean o) (join_absent audit who synapse user binding o room)
  unfolding join_absent
  join_absent-Reports binding o room =
      logged-Reports audit who user _ _ clean (clean o)
        (Op.force_join_user user.matrix_user_id room) _ _ _ _
        λ r l.
          Reports-from clean _ _ _ (ground (arith, clean-warn_on l audit_failed o))
            (joined-Reports binding (warn_on l audit_failed o) room r)

  join_listed-Reports :
      (binding : PolicyBinding) (o : WorkflowOutcome) (room : Text) (r : Result (List Text))
      → Reports clean (clean o && is_ok r) (join_listed audit who synapse user binding o room r)
  unfolding join_listed
  join_listed-Reports binding o room (err e) =
      Reports-pure clean (clean o && false) _
        (clean-add_warning o (members_failed room e) ∙ sym (and-false (clean o)))
  join_listed-Reports binding o room (ok members) =
      Reports-from clean (clean o) (clean o && true) _ (sym (and-true (clean o))) (
        Reports-if clean (clean o) (contains members user.matrix_user_id) (pure o)
          (join_absent audit who synapse user binding o room) (Reports-pure clean (clean o) o refl)
          (join_absent-Reports binding o room))

  join_each-Reports :
      (binding : PolicyBinding) (o : WorkflowOutcome) (rooms : List Text)
      → Reports clean (clean o) (join_each audit who synapse user binding o rooms)
  unfolding join_each
  join_each-Reports binding o [] = Reports-pure clean (clean o) o refl
  join_each-Reports binding o (room ∷ rest) =
      Reports-bind (λ r. clean o && is_ok r) clean (clean o) _ _
        (Reports-call_if (clean o) (Op.get_joined_room_members room) is_ok _)
        λ members.
          Reports-bind clean clean (clean o && is_ok members) _ _
            (join_listed-Reports binding o room members) λ done. join_each-Reports binding done rest

  apply_binding-Reports :
      (matches : Bool) (binding : PolicyBinding) (targets : List Text) (o : WorkflowOutcome)
      → Reports clean (clean o) (apply_binding audit who synapse user matches binding (targets, o))
  unfolding apply_binding kick_unmatched
  apply_binding-Reports true binding targets o = join_each-Reports binding o targets
  apply_binding-Reports false binding targets o =
      Reports-if clean (clean o) binding.allow_remove
        (kick_unmatched audit who synapse user binding (targets, o)) (pure o)
        (kick_each-Reports audit who user synapse _ _ binding o _)
        (Reports-pure clean (clean o) o refl)

  reconcile_each-Reports :
      (groups roles : List Text) (o : WorkflowOutcome) (bindings : List PolicyBinding)
      → Reports clean (clean o) (reconcile_each audit who synapse user groups roles o bindings)
  unfolding reconcile_each expand_targets
  reconcile_each-Reports groups roles o [] = Reports-pure clean (clean o) o refl
  reconcile_each-Reports groups roles o (binding ∷ rest) =
      let room = room_id binding.target in
      Reports-bind (λ x. clean x.1) clean (clean o) _ _
        (Reports-bind (λ r. clean o && is_ok r) (λ x. clean x.1) (clean o) _ _
          (Reports-call_if (clean o) (Op.get_space_children room) is_ok _)
          λ r. Reports-pure (λ x. clean x.1) _ _ (clean-warn_on r (children_failed room) o))
        λ x.
          Reports-bind clean clean (clean x.1) _ _ (apply_binding-Reports _ binding x.0 x.1)
            λ done. reconcile_each-Reports groups roles done rest

  -- `reconcile_membership` returns an outcome with no warning exactly when every call of Synapse
  -- and every audit write of its run succeeded.
  pub reconcile_membership-Reports :
      (bindings : List PolicyBinding) (groups roles : List Text) (w : World W)
      → let r = reconcile_membership audit who synapse user bindings groups roles w in
        spotless r.value ≡ all_ok r.events
  unfolding reconcile_membership
  reconcile_membership-Reports bindings groups roles w =
      (Reports-bind clean spotless true _ _
          (reconcile_each-Reports groups roles no_warnings bindings)
          λ o. Reports-pure spotless (clean o) _ refl).at
        w
