-- ===== src/Effects/Database.antt =====
-- The SQLite tables of migrations/*.sql that the program reads and writes.
use matrix_identity_admin.Prelude.{List, Option, Bool}
use matrix_identity_admin.Text.{Text, ℤ}
use matrix_identity_admin.Models.Audit.{AuditLog}
use matrix_identity_admin.Models.Policy.{CachedRoom}

-- A row of `policy_bindings`.
pub record BindingRow : Type 0 where
  pub id : Text
  pub subject_type : Text
  pub subject_value : Text
  pub target_type : Text
  pub target_room_id : Text
  pub power_level : Option ℤ
  pub allow_remove : Bool
  pub created_at : Text
  pub updated_at : Text

-- The row of `policy_bootstrap_state`, whose version is always 1.
pub record BootstrapState : Type 0 where
  pub bootstrap_source : Text
  pub bootstrapped_at : Text

pub record Database : Type 0 where
  pub audit_logs : List AuditLog
  pub policy_bindings : List BindingRow
  pub policy_targets_cache : List CachedRoom
  pub policy_bootstrap_state : Option BootstrapState
