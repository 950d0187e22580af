-- ===== src/Reconcile.antt =====
-- src/services/reconcile_membership.rs: room membership is brought in line with the policy
-- bindings, and the preview that makes no change.
pub mod Steps
pub mod Reports
pub mod Preview
pub mod Joins
pub mod Planned
pub mod Targets
pub mod Steady
pub mod Agreement
pub mod ReadOnly
use mathlib.Core.List.{reverse}
use matrix_identity_admin.Prelude.{
  List, [], ◌∷◌, ◌++◌, Option, none, some, Bool, true, false, not, ◌&&◌, if◌then◌else◌,
}
use matrix_identity_admin.Text.{Text, codes, contains, ℤ, show_int}
use matrix_identity_admin.Models.Error.{AppError, Result, ok, err, is_ok, error_text}
use matrix_identity_admin.Models.Workflow.{WorkflowOutcome, no_warnings, add_warning, warn_on}
use matrix_identity_admin.Models.Audit.{JsonValue}
use matrix_identity_admin.Models.Policy.{PolicyBinding, PolicySubject, room_id, subject_text}
use matrix_identity_admin.Effects.Exec.{Exec, pure, ◌>>=◌}
use matrix_identity_admin.Effects.Clients.{MatrixService}
use matrix_identity_admin.Effects.Clients.Synapse
use matrix_identity_admin.AuditService.{AuditService, Actor}
use matrix_identity_admin.Lifecycle.{Subject, log_result, audit_failed}
use matrix_identity_admin.Lifecycle.Kick.{space_targets, children_failed, members_failed, kick_each}

unfoldable pub matches_subject : PolicySubject → List Text → List Text → Bool
matches_subject (PolicySubject.group g) groups roles = contains groups g
matches_subject (PolicySubject.role r) groups roles = contains roles r

unfoldable pub user_matches_binding : PolicyBinding → List Text → List Text → Bool
unfolding matches_subject
user_matches_binding binding groups roles = matches_subject binding.subject groups roles

unfoldable pub join_failed : Text → Text → AppError → Text
join_failed user room e =
    codes "Could not join " ++ (user ++ (codes " to " ++ (room ++ (codes ": " ++ error_text e))))

unfoldable pub level_failed : Text → Text → ℤ → AppError → Text
level_failed user room level e =
    codes "Joined "
    ++ (user
        ++ (codes " to "
            ++ (room
                ++ (codes " but could not set power level "
                    ++ (show_int level ++ (codes ": " ++ error_text e))))))

module _ {W : Type 0} (synapse : MatrixService W) where
  -- The targets of a binding, and the warnings with one more if the children could not be read.
  unfoldable pub expand_targets : Text → WorkflowOutcome → Exec W (List Text × WorkflowOutcome)
  expand_targets room outcome = do
    children ← Synapse.get_space_children synapse room
    pure (space_targets room children, warn_on children (children_failed room) outcome)

module _ {W : Type 0} (audit : AuditService W) (who : Actor) (synapse : MatrixService W) where
  -- After a join: the power level of the binding, if it has one.
  unfoldable pub set_level : Subject → Option ℤ → WorkflowOutcome → Text → Exec W WorkflowOutcome
  set_level user none outcome room = pure outcome
  set_level user (some level) outcome room = do
    result ← Synapse.set_power_level synapse room user.matrix_user_id level
    pure (warn_on result (level_failed user.matrix_user_id room level) outcome)

  unfoldable pub joined :
      Subject → PolicyBinding → WorkflowOutcome → Text → Result (Unit {0}) → Exec W WorkflowOutcome
  joined user binding outcome room (err e) =
      pure (add_warning outcome (join_failed user.matrix_user_id room e))
  joined user binding outcome room (ok _) = set_level user binding.power_level outcome room

  -- The join of a user who is not in the room, its log, and the power level.
  unfoldable pub join_absent :
      Subject → PolicyBinding → WorkflowOutcome → Text → Exec W WorkflowOutcome
  join_absent user binding outcome room = do
    result ← Synapse.force_join_user synapse user.matrix_user_id room
    logged ← log_result audit who user (codes "join_room_on_reconcile") (is_ok result) (
        (codes "room_id", JsonValue.string room)
        ∷ (codes "subject", JsonValue.string (subject_text binding.subject))
        ∷ [])
    joined user binding (warn_on logged audit_failed outcome) room result

  unfoldable pub join_listed :
      Subject → PolicyBinding → WorkflowOutcome → Text → Result (List Text) → Exec W WorkflowOutcome
  join_listed user binding outcome room (err e) = pure (add_warning outcome (members_failed room e))
  join_listed user binding outcome room (ok members) =
      if contains members user.matrix_user_id
      then pure outcome
      else join_absent user binding outcome room

  unfoldable pub join_each :
      Subject → PolicyBinding → WorkflowOutcome → List Text → Exec W WorkflowOutcome
  join_each user binding outcome [] = pure outcome
  join_each user binding outcome (room ∷ rest) = do
    members ← Synapse.get_joined_room_members synapse room
    done ← join_listed user binding outcome room members
    join_each user binding done rest

  -- The kicks of a binding that the user does not match: children first, then the space.
  unfoldable pub kick_unmatched :
      Subject → PolicyBinding → List Text × WorkflowOutcome → Exec W WorkflowOutcome
  kick_unmatched user binding (targets, outcome) =
      kick_each audit who synapse user (codes "kick_room_on_reconcile")
        (codes "Removed: no longer matches " ++ subject_text binding.subject) binding outcome
        (reverse targets)

  -- One binding, once its targets are known.
  unfoldable pub apply_binding :
      Subject → Bool → PolicyBinding → List Text × WorkflowOutcome → Exec W WorkflowOutcome
  apply_binding user true binding (targets, outcome) = join_each user binding outcome targets
  apply_binding user false binding (targets, outcome) =
      if binding.allow_remove then kick_unmatched user binding (targets, outcome) else pure outcome

  unfoldable pub reconcile_each :
      Subject
      → List Text
      → List Text
      → WorkflowOutcome
      → List PolicyBinding
      → Exec W WorkflowOutcome
  reconcile_each user groups roles outcome [] = pure outcome
  reconcile_each user groups roles outcome (binding ∷ rest) = do
    expanded ← expand_targets synapse (room_id binding.target) outcome
    done ← apply_binding user (user_matches_binding binding groups roles) binding expanded
    reconcile_each user groups roles done rest

  unfoldable pub reconcile_membership :
      Subject → List PolicyBinding → List Text → List Text → Exec W (Result WorkflowOutcome)
  reconcile_membership user bindings groups roles = do
    outcome ← reconcile_each user groups roles no_warnings bindings
    pure (ok outcome)
