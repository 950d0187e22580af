-- ===== src/Models/Audit.antt =====
-- src/models/audit.rs, and the JSON values that the program stores with an audit entry.
use matrix_identity_admin.Prelude.{List, Option, Bool, true, false}
use matrix_identity_admin.Text.{Text, codes, ℤ}

pub data AuditResult : Type 0 where
  success failure : AuditResult

-- `Display`
unfoldable pub audit_text : AuditResult → Text
audit_text AuditResult.success = codes "success"
audit_text AuditResult.failure = codes "failure"

-- `if result.is_ok() { Success } else { Failure }`
abbrev pub audit_result_of : Bool → AuditResult
audit_result_of true = AuditResult.success
audit_result_of false = AuditResult.failure

pub record AuditLog : Type 0 where
  pub id : Text
  pub timestamp : Text
  pub admin_subject : Text
  pub admin_username : Text
  pub target_keycloak_user_id : Option Text
  pub target_matrix_user_id : Option Text
  pub action : Text
  pub result : Text
  pub metadata_json : Text

-- The values that `json!` is given: each metadata object is a flat list of keys.
pub data JsonValue : Type 0 where
  null : JsonValue
  bool : Bool → JsonValue
  int : ℤ → JsonValue
  string : Text → JsonValue
  strings : List Text → JsonValue

abbrev pub Metadata : Type 0
Metadata = List (Text × JsonValue)
