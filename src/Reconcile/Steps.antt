-- ===== src/Reconcile/Steps.antt =====
-- src/services/reconcile_membership.rs, for any property of runs that `Observes` its calls.
use matrix_identity_admin.Prelude.{List, [], ◌∷◌, Option, none, some, Bool, true, false, ◌≡◌, refl}
use matrix_identity_admin.Text.{Text, ℤ, contains}
use matrix_identity_admin.Models.Error.{Result, ok, err, is_ok}
use matrix_identity_admin.Models.Workflow.{WorkflowOutcome}
use matrix_identity_admin.Models.Policy.{PolicyBinding, room_id}
use matrix_identity_admin.Effects.Event.{Op, Kind}
use matrix_identity_admin.Effects.Exec.{pure}
use matrix_identity_admin.Effects.Rules.{Trace, Holds, Holds-pure, Holds-bind, Holds-if}
use matrix_identity_admin.Effects.Clients.{MatrixService}
use matrix_identity_admin.AuditService.{AuditService, Actor}
use matrix_identity_admin.Lifecycle.{Subject}
use matrix_identity_admin.Lifecycle.Observes.{Observes}
use matrix_identity_admin.Lifecycle.KickSteps.{kick_each-Holds}
use matrix_identity_admin.Reconcile.{
  expand_targets, set_level, joined, join_absent, join_listed, join_each, kick_unmatched,
  apply_binding, reconcile_each, reconcile_membership,
}

module _ {W : Type 0} (T : Trace W) (audit : AuditService W) (who : Actor) (user : Subject)
    (allowed : Kind → Bool) (o : Observes T audit who user allowed)
    (reads : allowed Kind.reading ≡ true) (kicks : allowed Kind.kick ≡ true)
    (joins : allowed Kind.join ≡ true) (powers : allowed Kind.power ≡ true)
    (synapse : MatrixService W) where
  set_level-Holds :
      (level : Option ℤ) (outcome : WorkflowOutcome) (room : Text)
      → Holds T (set_level audit who synapse user level outcome room)
  unfolding set_level
  set_level-Holds none outcome room = Holds-pure T _
  set_level-Holds (some level) outcome room =
      Holds-bind T _ _
        (o.plain _ (Op.set_power_level room user.matrix_user_id level) is_ok _ refl powers)
        λ r. Holds-pure T _

  joined-Holds :
      (binding : PolicyBinding) (outcome : WorkflowOutcome) (room : Text) (r : Result (Unit {0}))
      → Holds T (joined audit who synapse user binding outcome room r)
  unfolding joined
  joined-Holds binding outcome room (err e) = Holds-pure T _
  joined-Holds binding outcome room (ok _) = set_level-Holds _ _ _

  join_absent-Holds :
      (binding : PolicyBinding) (outcome : WorkflowOutcome) (room : Text)
      → Holds T (join_absent audit who synapse user binding outcome room)
  unfolding join_absent
  join_absent-Holds binding outcome room =
      o.logged _ _ (Op.force_join_user user.matrix_user_id room) _ _ _ _ refl joins
        λ r l. joined-Holds binding _ room r

  join_listed-Holds :
      (binding : PolicyBinding) (outcome : WorkflowOutcome) (room : Text) (r : Result (List Text))
      → Holds T (join_listed audit who synapse user binding outcome room r)
  unfolding join_listed
  join_listed-Holds binding outcome room (err e) = Holds-pure T _
  join_listed-Holds binding outcome room (ok members) =
      Holds-if T (contains members user.matrix_user_id) (pure outcome)
        (join_absent audit who synapse user binding outcome room) (Holds-pure T _)
        (join_absent-Holds binding outcome room)

  join_each-Holds :
      (binding : PolicyBinding) (outcome : WorkflowOutcome) (rooms : List Text)
      → Holds T (join_each audit who synapse user binding outcome rooms)
  unfolding join_each
  join_each-Holds binding outcome [] = Holds-pure T _
  join_each-Holds binding outcome (room ∷ rest) =
      Holds-bind T _ _ (o.plain _ (Op.get_joined_room_members room) is_ok _ refl reads) λ members.
        Holds-bind T _ _ (join_listed-Holds binding outcome room members)
          λ done. join_each-Holds binding done rest

  kick_unmatched-Holds :
      (binding : PolicyBinding) (x : List Text × WorkflowOutcome)
      → Holds T (kick_unmatched audit who synapse user binding x)
  unfolding kick_unmatched
  kick_unmatched-Holds binding (targets, outcome) =
      kick_each-Holds T audit who user allowed o reads kicks synapse _ _ binding outcome _

  apply_binding-Holds :
      (matches : Bool) (binding : PolicyBinding) (x : List Text × WorkflowOutcome)
      → Holds T (apply_binding audit who synapse user matches binding x)
  unfolding apply_binding
  apply_binding-Holds true binding (targets, outcome) = join_each-Holds binding outcome targets
  apply_binding-Holds false binding (targets, outcome) =
      Holds-if T binding.allow_remove
        (kick_unmatched audit who synapse user binding (targets, outcome)) (pure outcome)
        (kick_unmatched-Holds binding _) (Holds-pure T _)

  reconcile_each-Holds :
      (groups roles : List Text) (outcome : WorkflowOutcome) (bindings : List PolicyBinding)
      → Holds T (reconcile_each audit who synapse user groups roles outcome bindings)
  unfolding reconcile_each expand_targets
  reconcile_each-Holds groups roles outcome [] = Holds-pure T _
  reconcile_each-Holds groups roles outcome (binding ∷ rest) =
      Holds-bind T _ _
        (Holds-bind T _ _
          (o.plain _ (Op.get_space_children (room_id binding.target)) is_ok _ refl reads)
          λ children. Holds-pure T _)
        λ expanded.
          Holds-bind T _ _ (apply_binding-Holds _ binding expanded)
            λ done. reconcile_each-Holds groups roles done rest

  pub reconcile_membership-Holds :
      (bindings : List PolicyBinding) (groups roles : List Text)
      → Holds T (reconcile_membership audit who synapse user bindings groups roles)
  unfolding reconcile_membership
  reconcile_membership-Holds bindings groups roles =
      Holds-bind T _ _ (reconcile_each-Holds groups roles _ bindings) λ outcome. Holds-pure T _
