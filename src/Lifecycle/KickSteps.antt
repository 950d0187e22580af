-- ===== src/Lifecycle/KickSteps.antt =====
-- src/services/lifecycle_steps.rs: the kicks, for any property of runs that `Observes` them.
use matrix_identity_admin.Prelude.{List, [], ◌∷◌, Bool, true, ◌≡◌, refl}
use matrix_identity_admin.Text.{Text, contains}
use matrix_identity_admin.Models.Error.{Result, ok, err, is_ok}
use matrix_identity_admin.Models.Workflow.{WorkflowOutcome}
use matrix_identity_admin.Models.Policy.{PolicyBinding, room_id}
use matrix_identity_admin.Effects.Event.{Op, Kind}
use matrix_identity_admin.Effects.Exec.{Exec, pure}
use matrix_identity_admin.Effects.Rules.{Trace, Holds, Holds-pure, Holds-bind, Holds-if}
use matrix_identity_admin.Effects.Clients.{MatrixService}
use matrix_identity_admin.AuditService.{AuditService, Actor}
use matrix_identity_admin.Lifecycle.{Subject}
use matrix_identity_admin.Lifecycle.Kick.{
  kick_member, kick_listed, kick_each, kick_binding, kick_bindings, kick_from_all_mapped_rooms,
}
use matrix_identity_admin.Lifecycle.Observes.{Observes}

module _ {W : Type 0} (T : Trace W) (audit : AuditService W) (who : Actor) (user : Subject)
    (allowed : Kind → Bool) (o : Observes T audit who user allowed)
    (reads : allowed Kind.reading ≡ true) (kicks : allowed Kind.kick ≡ true)
    (synapse : MatrixService W) where
  module _ (action reason : Text) (binding : PolicyBinding) where
    kick_member-Holds :
        (outcome : WorkflowOutcome) (room : Text)
        → Holds T (kick_member audit who synapse user action reason binding outcome room)
    unfolding kick_member
    kick_member-Holds outcome room =
        o.logged _ _ (Op.kick_user_from_room user.matrix_user_id room reason) _ _ _ _ refl kicks
          λ r l. Holds-pure T _

    kick_listed-Holds :
        (outcome : WorkflowOutcome) (room : Text) (r : Result (List Text))
        → Holds T (kick_listed audit who synapse user action reason binding outcome room r)
    unfolding kick_listed
    kick_listed-Holds outcome room (err e) = Holds-pure T _
    kick_listed-Holds outcome room (ok members) =
        Holds-if T (contains members user.matrix_user_id)
          (kick_member audit who synapse user action reason binding outcome room) (pure outcome)
          (kick_member-Holds outcome room) (Holds-pure T _)

    pub kick_each-Holds :
        (outcome : WorkflowOutcome) (rooms : List Text)
        → Holds T (kick_each audit who synapse user action reason binding outcome rooms)
    unfolding kick_each
    kick_each-Holds outcome [] = Holds-pure T _
    kick_each-Holds outcome (room ∷ rest) =
        Holds-bind T _ _ (o.plain _ (Op.get_joined_room_members room) is_ok _ refl reads) λ members.
          Holds-bind T _ _ (kick_listed-Holds outcome room members)
            λ kicked. kick_each-Holds kicked rest

  kick_binding-Holds :
      (action : Text) (outcome : WorkflowOutcome) (binding : PolicyBinding)
      (k : WorkflowOutcome → Exec W WorkflowOutcome)
      → ((done : WorkflowOutcome) → Holds T (k done))
      → Holds T (kick_binding audit who synapse user action outcome binding k)
  unfolding kick_binding
  kick_binding-Holds action outcome binding k hk =
      Holds-bind T _ _
        (o.plain _ (Op.get_space_children (room_id binding.target)) is_ok _ refl reads)
        λ children. Holds-bind T _ _ (kick_each-Holds action _ binding _ _) hk

  kick_bindings-Holds :
      (action : Text) (seen : List Text) (outcome : WorkflowOutcome) (bindings : List PolicyBinding)
      → Holds T (kick_bindings audit who synapse user action seen outcome bindings)
  unfolding kick_bindings
  kick_bindings-Holds action seen outcome [] = Holds-pure T _
  kick_bindings-Holds action seen outcome (binding ∷ rest) =
      Holds-if T (contains seen (room_id binding.target))
        (kick_bindings audit who synapse user action seen outcome rest)
        (kick_binding audit who synapse user action outcome binding (λ done.
          kick_bindings audit who synapse user action (room_id binding.target ∷ seen) done rest))
        (kick_bindings-Holds action seen outcome rest)
        (kick_binding-Holds action outcome binding _
          λ done. kick_bindings-Holds action (room_id binding.target ∷ seen) done rest)

  pub kick_from_all_mapped_rooms-Holds :
      (context : Text) (bindings : List PolicyBinding)
      → Holds T (kick_from_all_mapped_rooms audit who synapse context user bindings)
  unfolding kick_from_all_mapped_rooms
  kick_from_all_mapped_rooms-Holds context bindings = kick_bindings-Holds _ _ _ bindings
