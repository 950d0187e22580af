-- ===== src/Reconcile/Planned.antt =====
-- src/services/reconcile_membership.rs: the joins of a reconciliation, computed from the members and
-- the children of the rooms before it.
use mathlib.Core.Path.{subst}
use matrix_identity_admin.Prelude.{
  List, [], ◌∷◌, ◌++◌, Option, none, some, Bool, true, false, if◌then◌else◌, ◌||◌, all, ◌≡◌, refl,
  sym, ap, ◌∙◌, arith, Bool-cases, inl, inr,
}
use matrix_identity_admin.Text.{Text, ℤ, contains, text_eq_refl}
use matrix_identity_admin.Models.Error.{Result, ok, err, is_ok}
use matrix_identity_admin.Models.Workflow.{WorkflowOutcome, warn_on}
use matrix_identity_admin.Models.Policy.{PolicyBinding}
use matrix_identity_admin.Models.Policy as Policy
use matrix_identity_admin.Effects.Event.{Op}
use matrix_identity_admin.Effects.Exec.{World, pure, ◌>>=◌}
use matrix_identity_admin.Effects.Clients.{MatrixService}
use matrix_identity_admin.AuditService.{AuditService, Actor, log, insert}
use matrix_identity_admin.Lifecycle.{Subject, log_result}
use matrix_identity_admin.Lifecycle.Kick.{space_targets, children_failed}
use matrix_identity_admin.Lifecycle.KickSteps.{kick_each-Holds}
use matrix_identity_admin.Reconcile.{
  expand_targets, user_matches_binding, set_level, joined, join_absent, join_listed, join_each,
  kick_unmatched, apply_binding, reconcile_each,
}
use matrix_identity_admin.Reconcile.Targets.{
  apart, targets_if, acting_targets, in_first, in_second, not_same, apart_first, apart_second,
  apart_between,
}
use matrix_identity_admin.Reconcile.Steady.{
  Steady, members_in, contains-all, join_listed-Elsewhere, apply_binding-Elsewhere,
}
use matrix_identity_admin.Reconcile.Joins.{
  Joins, joins_of, joins_of-append, Joins-pure, Joins-call, Joins-bind, no_join, JoinlessTrace,
  Joinless-Observes, Joins-if,
}

-- The rooms that a matching user is not in, of those whose members are known.
abbrev pub wanted_if : Text → Text → Result (List Text) → List Text
wanted_if user room (ok ms) = if contains ms user then [] else room ∷ []
wanted_if user room (err e) = []

abbrev pub wanted_in : Text → (Text → Result (List Text)) → List Text → List Text
wanted_in user members [] = []
wanted_in user members (room ∷ rest) =
    wanted_if user room (members room) ++ wanted_in user members rest

-- The rooms to join for one binding.
abbrev pub wanted_for : Text → (Text → Result (List Text)) → Bool → List Text → List Text
wanted_for user members true rooms = wanted_in user members rooms
wanted_for user members false rooms = []

-- The rooms to join, from the members and the children of each room.
abbrev pub planned_joins :
    Text
    → (Text → Result (List Text))
    → (Text → Result (List Text))
    → List Text
    → List Text
    → List PolicyBinding
    → List Text
planned_joins user members children groups roles [] = []
planned_joins user members children groups roles (b ∷ bs) =
    let room = Policy.room_id b.target in
    wanted_for user members (user_matches_binding b groups roles)
      (space_targets room (children room))
    ++ planned_joins user members children groups roles bs

module _ {W : Type 0} (audit : AuditService W) (who : Actor) (user : Subject)
    (synapse : MatrixService W) where
  set_level-Joins :
      (o : WorkflowOutcome) (room : Text) (level : Option ℤ)
      → Joins [] (set_level audit who synapse user level o room)
  unfolding set_level
  set_level-Joins o room none = Joins-pure o
  set_level-Joins o room (some level) =
      Joins-bind [] [] _ _ (Joins-call (Op.set_power_level room user.matrix_user_id level) is_ok _)
        λ r. Joins-pure _

  joined-Joins :
      (binding : PolicyBinding) (o : WorkflowOutcome) (room : Text) (r : Result (Unit {0}))
      → Joins [] (joined audit who synapse user binding o room r)
  unfolding joined
  joined-Joins binding o room (err e) = Joins-pure _
  joined-Joins binding o room (ok _) = set_level-Joins o room binding.power_level

  join_absent-Joins :
      (binding : PolicyBinding) (o : WorkflowOutcome) (room : Text)
      → Joins (room ∷ []) (join_absent audit who synapse user binding o room)
  unfolding join_absent log_result log insert ◌>>=◌
  join_absent-Joins binding o room = record {
    at = λ w. ap (λ t. room ∷ t) ((joined-Joins binding _ room _).at _);
  }

  kick_unmatched-Joins :
      (binding : PolicyBinding) (x : List Text × WorkflowOutcome)
      → Joins [] (kick_unmatched audit who synapse user binding x)
  unfolding kick_unmatched
  kick_unmatched-Joins binding (targets, o) = record {
    at = λ w.
        (kick_each-Holds (JoinlessTrace W) audit who user no_join (Joinless-Observes audit who user)
            refl refl synapse _ _ binding o _).at
          w;
  }

  join_listed-Joins :
      (binding : PolicyBinding) (o : WorkflowOutcome) (room : Text) (r : Result (List Text))
      → Joins
          (wanted_if user.matrix_user_id room r)
          (join_listed audit who synapse user binding o room r)
  unfolding join_listed
  join_listed-Joins binding o room (err e) = Joins-pure _
  join_listed-Joins binding o room (ok ms) = elim (Bool-cases (contains ms user.matrix_user_id)) [
    | inl h ↦ rw h (Joins-pure o)
    | inr h ↦ rw h (join_absent-Joins binding o room)
  ]

  kick_or_none-Joins :
      (binding : PolicyBinding) (targets : List Text) (o : WorkflowOutcome)
      → Joins [] (apply_binding audit who synapse user false binding (targets, o))
  unfolding apply_binding
  kick_or_none-Joins binding targets o =
      Joins-if [] binding.allow_remove (kick_unmatched audit who synapse user binding (targets, o))
        (pure o) (kick_unmatched-Joins binding (targets, o)) (Joins-pure o)

  module _ (steady : Steady synapse audit) (members children : Text → Result (List Text))
      (same_children : (room : Text) (u : W)
        → (synapse.get_space_children room u).0 ≡ children room) where
    -- What Synapse says of some rooms is still what it said.
    abbrev Agrees : List Text → World W → Type 0
    Agrees rooms w =
        (r : Text) → contains rooms r ≡ true → members_in synapse w.upstream r ≡ members r

    join_each-joins :
        (binding : PolicyBinding) (o : WorkflowOutcome) (rooms : List Text) (w : World W)
        → apart rooms ≡ true
        → Agrees rooms w
        → joins_of (join_each audit who synapse user binding o rooms w).events
          ≡ wanted_in user.matrix_user_id members rooms
    unfolding join_each ◌>>=◌ contains
    join_each-joins binding o [] w d agree = refl
    join_each-joins binding o (room ∷ rest) w d agree =
        let listing = synapse.get_joined_room_members room w.upstream in
        let w1 : World W = record w { upstream = listing.1 } in
        let run = join_listed audit who synapse user binding o room listing.0 w1 in
        let more = join_each audit who synapse user binding run.value rest run.world in
        joins_of-append run.events more.events
        ∙ ap (λ t. t ++ joins_of more.events) ((join_listed-Joins binding o room listing.0).at w1)
        ∙ ap (λ r. wanted_if user.matrix_user_id room r ++ joins_of more.events)
            (agree room (ground (arith, text_eq_refl room)))
        ∙ ap (λ t. wanted_if user.matrix_user_id room (members room) ++ t)
            (join_each-joins binding run.value rest run.world (ground (arith, d)) λ r h.
              (join_listed-Elsewhere synapse audit who steady user (room ∷ []) binding o room
                  listing.0 (ground (arith, text_eq_refl room))).at
                w1 r (ground (arith, not_same rest room r h (ground (arith, d))))
              ∙ steady.listing room r w.upstream
              ∙ agree r (ground (arith, h)))

    apply_binding-joins :
        (matches : Bool) (binding : PolicyBinding) (targets : List Text) (o : WorkflowOutcome)
        (w : World W)
        → apart (targets_if (matches || binding.allow_remove) targets) ≡ true
        → Agrees (targets_if (matches || binding.allow_remove) targets) w
        → joins_of (apply_binding audit who synapse user matches binding (targets, o) w).events
          ≡ wanted_for user.matrix_user_id members matches targets
    unfolding apply_binding
    apply_binding-joins true binding targets o w d agree =
        join_each-joins binding o targets w d agree
    apply_binding-joins false binding targets o w d agree =
        (kick_or_none-Joins binding targets o).at w

    pub reconcile_each-joins :
        (groups roles : List Text) (o : WorkflowOutcome) (bindings : List PolicyBinding)
        (w : World W)
        → apart (acting_targets children groups roles bindings) ≡ true
        → Agrees (acting_targets children groups roles bindings) w
        → joins_of (reconcile_each audit who synapse user groups roles o bindings w).events
          ≡ planned_joins user.matrix_user_id members children groups roles bindings
    unfolding reconcile_each expand_targets ◌>>=◌
    reconcile_each-joins groups roles o [] w d agree = refl
    reconcile_each-joins groups roles o (b ∷ bs) w d agree =
        let room = Policy.room_id b.target in
        let matches = user_matches_binding b groups roles in
        let w1 : World W = record w { upstream = (synapse.get_space_children room w.upstream).1 } in
        let expanded : Result (List Text) → List Text × WorkflowOutcome =
          λ c. (space_targets room c, warn_on c (children_failed room) o) in
        let run = λ (c : Result (List Text)).
          apply_binding audit who synapse user matches b (expanded c) w1 in
        let more = λ (c : Result (List Text)).
          reconcile_each audit who synapse user groups roles (run c).value bs (run c).world in
        let c = children room in
        let own = targets_if (matches || b.allow_remove) (space_targets room c) in
        let others = acting_targets children groups roles bs in
        ap (λ t. joins_of ((run t).events ++ (more t).events)) (same_children room w.upstream)
        ∙ joins_of-append (run c).events (more c).events
        ∙ ap (λ t. t ++ joins_of (more c).events)
            (apply_binding-joins matches b (space_targets room c) (expanded c).1 w1
              (apart_first own others d)
              λ r h. steady.children room r w.upstream ∙ agree r (in_first own others r h))
        ∙ ap (λ t. wanted_for user.matrix_user_id members matches (space_targets room c) ++ t)
            (reconcile_each-joins groups roles (run c).value bs (run c).world
              (apart_second own others d)
              λ r h.
                (apply_binding-Elsewhere synapse audit who steady user own matches b
                    (space_targets room c) (expanded c).1
                    (λ a.
                      subst
                        (λ t.
                          all (contains (targets_if t (space_targets room c)))
                            (space_targets room c)
                          ≡ true)
                        (sym a) (contains-all (space_targets room c)))).at
                  w1 r (apart_between own others r d h)
                ∙ steady.children room r w.upstream
                ∙ agree r (in_second own others r h))
