-- ===== src/Directory/Identity.antt =====
-- src/services/identity_mapper.rs and the users of the workflows.
use matrix_identity_admin.Prelude.{
  List, [], ◌∷◌, Option, none, Bool, ◌==◌, if◌then◌else◌, true, false, not, ◌&&◌, ◌||◌, is_some,
  is_empty, ◌≡◌, arith,
}
use matrix_identity_admin.Text.{Text}
use matrix_identity_admin.Models.Accounts.{LifecycleState}
use matrix_identity_admin.InviteEmail.{split_once}
use matrix_identity_admin.Directory.{derive_lifecycle_state}

abbrev pub is_disabled : LifecycleState → Bool
is_disabled LifecycleState.disabled = true
is_disabled _ = false

abbrev pub is_active : LifecycleState → Bool
is_active LifecycleState.active = true
is_active _ = false

-- The lifecycle state is Disabled exactly when the Keycloak account is not enabled or the MAS
-- account is deactivated, and Active exactly when neither holds and no action is pending.
pub derive_lifecycle_state_lem :
    (enabled : Bool) (actions : List Text) (deactivated : Option Text)
    → (is_disabled (derive_lifecycle_state enabled actions deactivated)
        ≡ (not enabled || is_some deactivated))
      × (is_active (derive_lifecycle_state enabled actions deactivated)
          ≡ (enabled && (not (is_some deactivated) && is_empty actions)))
unfolding derive_lifecycle_state
derive_lifecycle_state_lem enabled actions deactivated = (ground arith, ground arith)

-- A reader of Matrix ids: what follows the @ is the localpart up to the first colon, and the server
-- after it.
abbrev pub read_matrix_id : Text → Option (Text × Text)
read_matrix_id [] = none
read_matrix_id (c ∷ cs) = if c == 64 then split_once 58 cs else none
