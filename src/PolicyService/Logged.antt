-- ===== src/PolicyService/Logged.antt =====
-- src/services/policy_service.rs: the audit entries of the operations on the bindings.
use matrix_identity_admin.Prelude.{ℕ, List, [], ◌∷◌, Option, Bool, ◌≡◌}
use matrix_identity_admin.Text.{Text, codes, ℤ}
use matrix_identity_admin.Models.Audit.{AuditResult, JsonValue, Metadata}
use matrix_identity_admin.Models.Policy.{PolicySubject, PolicyTarget, subject_text, room_id}
use matrix_identity_admin.Effects.Event.{Event, Op, event}
use matrix_identity_admin.AuditService.{AuditService, Actor, entry_of}
use matrix_identity_admin.PolicyService.{no_target, level_value}

-- The only event is the write of one entry of the action, by the admin, and `good` tells whether it
-- succeeded. Its id and its time are the environment's.
abbrev pub Logs :
    {W : Type 0} → AuditService W → Actor → Text → Metadata → Bool → List Event → Type 0
Logs audit who action metadata good es =
    (id : Text) × (now : Option ℕ) × (es
      ≡ event
          (Op.insert_audit
            (entry_of audit who no_target action AuditResult.success metadata id now))
          good
        ∷ [])

-- What an entry says of a new binding, of a changed one, and of a deleted one.
abbrev pub creation_metadata : Text → PolicySubject → PolicyTarget → Option ℤ → Bool → Metadata
creation_metadata id subject target level remove =
    (codes "binding_id", JsonValue.string id)
    ∷ (codes "subject", JsonValue.string (subject_text subject))
    ∷ (codes "target_room_id", JsonValue.string (room_id target))
    ∷ (codes "power_level", level_value level)
    ∷ (codes "allow_remove", JsonValue.bool remove)
    ∷ []

abbrev pub update_metadata : Text → Option ℤ → Bool → Metadata
update_metadata id level remove =
    (codes "binding_id", JsonValue.string id)
    ∷ (codes "power_level", level_value level)
    ∷ (codes "allow_remove", JsonValue.bool remove)
    ∷ []

abbrev pub deletion_metadata : Text → Metadata
deletion_metadata id = (codes "binding_id", JsonValue.string id) ∷ []
