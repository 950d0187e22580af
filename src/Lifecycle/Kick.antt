-- ===== src/Lifecycle/Kick.antt =====
-- `kick_from_all_mapped_rooms` of src/services/lifecycle_steps.rs.
use mathlib.Core.List.{reverse}
use matrix_identity_admin.Prelude.{List, [], ◌∷◌, ◌++◌, if◌then◌else◌}
use matrix_identity_admin.Text.{Text, codes, contains}
use matrix_identity_admin.Models.Error.{AppError, Result, ok, err, is_ok, error_text}
use matrix_identity_admin.Models.Workflow.{WorkflowOutcome, no_warnings, add_warning, warn_on}
use matrix_identity_admin.Models.Audit.{JsonValue}
use matrix_identity_admin.Models.Policy.{PolicyBinding, room_id, subject_text}
use matrix_identity_admin.Effects.Exec.{Exec, pure, ◌>>=◌}
use matrix_identity_admin.Effects.Clients.{MatrixService}
use matrix_identity_admin.Effects.Clients.Synapse
use matrix_identity_admin.AuditService.{AuditService, Actor}
use matrix_identity_admin.Lifecycle.{Subject, log_result, audit_failed}

-- The space and its children, or the room alone.
unfoldable pub space_targets : Text → Result (List Text) → List Text
space_targets room (ok []) = room ∷ []
space_targets room (ok (c ∷ cs)) = room ∷ c ∷ cs
space_targets room (err e) = room ∷ []

unfoldable pub children_failed : Text → AppError → Text
children_failed room e =
    codes "Could not check space children for " ++ (room ++ (codes ": " ++ error_text e))

unfoldable pub members_failed : Text → AppError → Text
members_failed room e =
    codes "Could not fetch members of " ++ (room ++ (codes ": " ++ error_text e))

unfoldable pub kick_failed : Text → Text → AppError → Text
kick_failed user room e =
    codes "Could not kick " ++ (user ++ (codes " from " ++ (room ++ (codes ": " ++ error_text e))))

module _ {W : Type 0} (audit : AuditService W) (who : Actor) (synapse : MatrixService W) where
  -- The kick of a member, and its log.
  unfoldable pub kick_member :
      Subject → Text → Text → PolicyBinding → WorkflowOutcome → Text → Exec W WorkflowOutcome
  kick_member user action reason binding outcome room = do
    result ← Synapse.kick_user_from_room synapse user.matrix_user_id room reason
    logged ← log_result audit who user action (is_ok result) (
        (codes "room_id", JsonValue.string room)
        ∷ (codes "subject", JsonValue.string (subject_text binding.subject))
        ∷ [])
    pure (
        warn_on result (kick_failed user.matrix_user_id room) (warn_on logged audit_failed outcome))

  -- What follows the member list of a room: a user who is not there is not kicked.
  unfoldable pub kick_listed :
      Subject
      → Text
      → Text
      → PolicyBinding
      → WorkflowOutcome
      → Text
      → Result (List Text)
      → Exec W WorkflowOutcome
  kick_listed user action reason binding outcome room (err e) =
      pure (add_warning outcome (members_failed room e))
  kick_listed user action reason binding outcome room (ok members) =
      if contains members user.matrix_user_id
      then kick_member user action reason binding outcome room
      else pure outcome

  -- The loop over the targets, which are given in the order of the kicks.
  unfoldable pub kick_each :
      Subject → Text → Text → PolicyBinding → WorkflowOutcome → List Text → Exec W WorkflowOutcome
  kick_each user action reason binding outcome [] = pure outcome
  kick_each user action reason binding outcome (room ∷ rest) = do
    members ← Synapse.get_joined_room_members synapse room
    kicked ← kick_listed user action reason binding outcome room members
    kick_each user action reason binding kicked rest

  -- One binding whose room is new: its targets are kicked from in reverse order, and then `next`.
  unfoldable pub kick_binding :
      Subject
      → Text
      → WorkflowOutcome
      → PolicyBinding
      → (WorkflowOutcome → Exec W WorkflowOutcome)
      → Exec W WorkflowOutcome
  kick_binding user action outcome binding next =
      let room = room_id binding.target in
      do
        children ← Synapse.get_space_children synapse room
        done ←
            kick_each user action (codes "Offboarded") binding
              (warn_on children (children_failed room) outcome)
              (reverse (space_targets room children))
        next done

  -- The loop over the bindings; `seen` is the set of rooms already dealt with.
  unfoldable pub kick_bindings :
      Subject → Text → List Text → WorkflowOutcome → List PolicyBinding → Exec W WorkflowOutcome
  kick_bindings user action seen outcome [] = pure outcome
  kick_bindings user action seen outcome (binding ∷ rest) =
      if contains seen (room_id binding.target)
      then kick_bindings user action seen outcome rest
      else kick_binding user action outcome binding
          (λ done. kick_bindings user action (room_id binding.target ∷ seen) done rest)

  unfoldable pub kick_from_all_mapped_rooms :
      Text → Subject → List PolicyBinding → Exec W WorkflowOutcome
  kick_from_all_mapped_rooms context user bindings =
      kick_bindings user (codes "kick_room_on_" ++ context) [] no_warnings bindings
