-- ===== src/Directory.antt =====
-- `derive_lifecycle_state` of src/services/user_service.rs and the mapping of
-- src/services/identity_mapper.rs.
pub mod Identity
pub mod Users
use matrix_identity_admin.Prelude.{
  List, ◌++◌, Option, none, some, Bool, not, ◌||◌, is_some, is_empty, if◌then◌else◌,
}
use matrix_identity_admin.Text.{Text, codes}
use matrix_identity_admin.Models.Accounts.{
  CanonicalUser, LifecycleState, CorrelationStatus, is_valid_matrix_localpart,
}

unfoldable pub derive_lifecycle_state : Bool → List Text → Option Text → LifecycleState
derive_lifecycle_state kc_enabled required_actions mas_deactivated_at =
    if not kc_enabled || is_some mas_deactivated_at
    then LifecycleState.disabled
    else if not (is_empty required_actions)
    then LifecycleState.invited
    else LifecycleState.active

pub record MappedIdentity : Type 0 where
  pub canonical : CanonicalUser
  pub inferred_matrix_id : Option Text
  pub correlation_status : CorrelationStatus

module _ (homeserver_domain : Text) where
  unfoldable pub derive_matrix_id : Text → Option Text
  derive_matrix_id username =
      if is_valid_matrix_localpart username
      then some (codes "@" ++ (username ++ (codes ":" ++ homeserver_domain)))
      else none

  unfoldable pub map_identity : CanonicalUser → Option Text → MappedIdentity
  map_identity canonical mas_user_id = record {
    canonical = canonical;
    inferred_matrix_id = derive_matrix_id canonical.username;
    correlation_status =
        if is_some mas_user_id then CorrelationStatus.confirmed else CorrelationStatus.inferred;
  }

  unfoldable pub map_summary_only : CanonicalUser → MappedIdentity
  map_summary_only canonical = record {
    canonical = canonical;
    inferred_matrix_id = derive_matrix_id canonical.username;
    correlation_status = CorrelationStatus.inferred;
  }
