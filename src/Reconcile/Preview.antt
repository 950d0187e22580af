-- ===== src/Reconcile/Preview.antt =====
-- `preview_membership` of src/services/reconcile_membership.rs: what a reconciliation would do.
use matrix_identity_admin.Prelude.{List, [], ◌∷◌, ◌++◌, Option, Bool, not, ◌&&◌, if◌then◌else◌}
use matrix_identity_admin.Text.{Text, contains, ℤ}
use matrix_identity_admin.Models.Error.{Result, ok, err}
use matrix_identity_admin.Models.Workflow.{WorkflowOutcome}
use matrix_identity_admin.Models.Policy.{PolicyBinding, room_id, subject_text}
use matrix_identity_admin.Effects.Exec.{Exec, pure, ◌>>=◌}
use matrix_identity_admin.Effects.Clients.{MatrixService}
use matrix_identity_admin.Effects.Clients.Synapse
use matrix_identity_admin.Lifecycle.Kick.{members_failed}
use matrix_identity_admin.Reconcile.{expand_targets, user_matches_binding}

pub record RoomAction : Type 0 where
  pub room_id : Text
  pub subject : Text
  pub power_level : Option ℤ

pub record ReconcilePreview : Type 0 where
  pub joins : List RoomAction
  pub kicks : List RoomAction
  pub already_correct : List RoomAction
  pub warnings : List Text

abbrev pub empty_preview : ReconcilePreview
empty_preview = record { joins = []; kicks = []; already_correct = []; warnings = [] }

abbrev pub action_of : PolicyBinding → Text → RoomAction
action_of binding room = record {
  room_id = room;
  subject = subject_text binding.subject;
  power_level = binding.power_level;
}

-- The three branches at the end of the loop's body.
unfoldable pub classify :
    PolicyBinding → Bool → Bool → RoomAction → ReconcilePreview → ReconcilePreview
classify binding matches in_room action preview =
    if matches && not in_room
    then record preview { joins = preview.joins ++ action ∷ [] }
    else if binding.allow_remove && (not matches && in_room)
    then record preview { kicks = preview.kicks ++ action ∷ [] }
    else if matches && in_room
    then record preview { already_correct = preview.already_correct ++ action ∷ [] }
    else preview

unfoldable pub preview_listed :
    Text → PolicyBinding → Bool → Text → ReconcilePreview → Result (List Text) → ReconcilePreview
preview_listed user binding matches room preview (err e) = record preview {
  warnings = preview.warnings ++ members_failed room e ∷ [];
}
preview_listed user binding matches room preview (ok members) =
    classify binding matches (contains members user) (action_of binding room) preview

module _ {W : Type 0} (synapse : MatrixService W) (user : Text) where
  -- The loop over the targets of a binding.
  unfoldable pub preview_rooms :
      PolicyBinding → Bool → ReconcilePreview → List Text → Exec W ReconcilePreview
  preview_rooms binding matches preview [] = pure preview
  preview_rooms binding matches preview (room ∷ rest) = do
    members ← Synapse.get_joined_room_members synapse room
    preview_rooms binding matches (preview_listed user binding matches room preview members) rest

  -- The targets of a binding, whose warnings are kept.
  unfoldable pub preview_expanded :
      PolicyBinding
      → Bool
      → ReconcilePreview
      → List Text × WorkflowOutcome
      → Exec W ReconcilePreview
  preview_expanded binding matches preview (targets, outcome) =
      preview_rooms binding matches (record preview { warnings = outcome.warnings }) targets

  unfoldable pub preview_each :
      List Text → List Text → ReconcilePreview → List PolicyBinding → Exec W ReconcilePreview
  preview_each groups roles preview [] = pure preview
  preview_each groups roles preview (binding ∷ rest) = do
    expanded ←
        expand_targets synapse (room_id binding.target) (record { warnings = preview.warnings })
    done ← preview_expanded binding (user_matches_binding binding groups roles) preview expanded
    preview_each groups roles done rest

  unfoldable pub preview_membership :
      List PolicyBinding → List Text → List Text → Exec W (Result ReconcilePreview)
  preview_membership bindings groups roles = do
    preview ← preview_each groups roles empty_preview bindings
    pure (ok preview)
