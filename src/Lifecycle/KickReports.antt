-- ===== src/Lifecycle/KickReports.antt =====
-- src/services/lifecycle_steps.rs: what the warnings tell of the failures of kicks.
use mathlib.Core.Bool.{and-true, and-false}
use matrix_identity_admin.Prelude.{List, [], ◌∷◌, true, false, ◌&&◌, refl, sym, ◌∙◌}
use matrix_identity_admin.Text.{Text, contains}
use matrix_identity_admin.Models.Error.{Result, ok, err, is_ok}
use matrix_identity_admin.Models.Workflow.{
  WorkflowOutcome, no_warnings, clean, clean-add_warning, clean-warn_on,
}
use matrix_identity_admin.Models.Policy.{PolicyBinding, room_id}
use matrix_identity_admin.Effects.Event.{Op}
use matrix_identity_admin.Effects.Exec.{Exec, pure}
use matrix_identity_admin.Effects.Clients.{MatrixService}
use matrix_identity_admin.Effects.Reports.{
  Reports, Reports-pure, Reports-if, Reports-from, Reports-call_if, Reports-bind,
}
use matrix_identity_admin.AuditService.{AuditService, Actor}
use matrix_identity_admin.Lifecycle.{Subject, audit_failed}
use matrix_identity_admin.Lifecycle.Kick.{
  children_failed, members_failed, kick_failed, kick_member, kick_listed, kick_each, kick_binding,
  kick_bindings, kick_from_all_mapped_rooms,
}
use matrix_identity_admin.Lifecycle.Reports.{logged-Reports, two_warnings}

module _ {W : Type 0} (audit : AuditService W) (who : Actor) (user : Subject)
    (synapse : MatrixService W) where
  module _ (action reason : Text) (binding : PolicyBinding) where
    kick_member-Reports :
        (o : WorkflowOutcome) (room : Text)
        → Reports clean (clean o) (kick_member audit who synapse user action reason binding o room)
    unfolding kick_member
    kick_member-Reports o room =
        logged-Reports audit who user _ _ clean (clean o)
          (Op.kick_user_from_room user.matrix_user_id room reason) _ _ _ _
          λ r l.
            Reports-pure clean (clean o && is_ok r && is_ok l) _
              (sym (two_warnings r l (kick_failed user.matrix_user_id room) audit_failed o))

    kick_listed-Reports :
        (o : WorkflowOutcome) (room : Text) (r : Result (List Text))
        → Reports clean
            (clean o && is_ok r)
            (kick_listed audit who synapse user action reason binding o room r)
    unfolding kick_listed
    kick_listed-Reports o room (err e) =
        Reports-pure clean (clean o && false) _
          (clean-add_warning o (members_failed room e) ∙ sym (and-false (clean o)))
    kick_listed-Reports o room (ok members) =
        Reports-from clean (clean o) (clean o && true) _ (sym (and-true (clean o))) (
          Reports-if clean (clean o) (contains members user.matrix_user_id)
            (kick_member audit who synapse user action reason binding o room) (pure o)
            (kick_member-Reports o room) (Reports-pure clean (clean o) o refl))

    pub kick_each-Reports :
        (o : WorkflowOutcome) (rooms : List Text)
        → Reports clean (clean o) (kick_each audit who synapse user action reason binding o rooms)
    unfolding kick_each
    kick_each-Reports o [] = Reports-pure clean (clean o) o refl
    kick_each-Reports o (room ∷ rest) =
        Reports-bind (λ r. clean o && is_ok r) clean (clean o) _ _
          (Reports-call_if (clean o) (Op.get_joined_room_members room) is_ok _)
          λ members.
            Reports-bind clean clean (clean o && is_ok members) _ _
              (kick_listed-Reports o room members) λ done. kick_each-Reports done rest

  kick_binding-Reports :
      (action : Text) (o : WorkflowOutcome) (binding : PolicyBinding)
      (k : WorkflowOutcome → Exec W WorkflowOutcome)
      → ((done : WorkflowOutcome) → Reports clean (clean done) (k done))
      → Reports clean (clean o) (kick_binding audit who synapse user action o binding k)
  unfolding kick_binding
  kick_binding-Reports action o binding k hk =
      let room = room_id binding.target in
      Reports-bind (λ r. clean o && is_ok r) clean (clean o) _ _
        (Reports-call_if (clean o) (Op.get_space_children room) is_ok _)
        λ children.
          Reports-bind clean clean (clean o && is_ok children) _ _
            (Reports-from clean _ _ _ (clean-warn_on children (children_failed room) o)
              (kick_each-Reports action _ binding _ _))
            hk

  kick_bindings-Reports :
      (action : Text) (seen : List Text) (o : WorkflowOutcome) (bindings : List PolicyBinding)
      → Reports clean (clean o) (kick_bindings audit who synapse user action seen o bindings)
  unfolding kick_bindings
  kick_bindings-Reports action seen o [] = Reports-pure clean (clean o) o refl
  kick_bindings-Reports action seen o (binding ∷ rest) =
      Reports-if clean (clean o) (contains seen (room_id binding.target))
        (kick_bindings audit who synapse user action seen o rest)
        (kick_binding audit who synapse user action o binding (λ done.
          kick_bindings audit who synapse user action (room_id binding.target ∷ seen) done rest))
        (kick_bindings-Reports action seen o rest)
        (kick_binding-Reports action o binding _
          λ done. kick_bindings-Reports action (room_id binding.target ∷ seen) done rest)

  pub kick_from_all_mapped_rooms-Reports :
      (context : Text) (bindings : List PolicyBinding)
      → Reports clean true (kick_from_all_mapped_rooms audit who synapse context user bindings)
  unfolding kick_from_all_mapped_rooms
  kick_from_all_mapped_rooms-Reports context bindings =
      kick_bindings-Reports _ [] no_warnings bindings
