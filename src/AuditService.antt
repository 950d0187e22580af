-- ===== src/AuditService.antt =====
-- src/services/audit_service.rs and `insert` of src/db/audit.rs: an audit entry is built and
-- written to `audit_logs`. Of the write, what SQLite may do is a parameter: it fails with an error,
-- or it appends the row. The primary key is checked here.
use matrix_identity_admin.Prelude.{[], ◌∷◌, ◌++◌, Option, none, some, any, ℕ, if◌then◌else◌}
use matrix_identity_admin.Text.{Text, text_eq}
use matrix_identity_admin.Models.Error.{AppError, Done, ok, err, is_ok}
use matrix_identity_admin.Models.Audit.{AuditResult, AuditLog, Metadata, audit_text}
use matrix_identity_admin.Effects.Database.{Database}
use matrix_identity_admin.Effects.Event.{Op, event}
use matrix_identity_admin.Effects.Exec.{Exec, ask, ◌>>=◌}
use matrix_identity_admin.Calendar.{chrono_now}

-- The libraries that the audit service uses: `Uuid::new_v4`, the system clock in seconds since the
-- epoch (none before it), `Value::to_string`, and the errors of a write.
pub record AuditService (W : Type 0) : Type 0 where
  pub new_v4 : W → Text × W
  pub unix_time : W → Option ℕ × W
  pub metadata_text : Metadata → Text
  pub write_error : AuditLog → W → Option Text × W
  pub unique_violation : Text

-- Who acts, and on whom.
pub record Actor : Type 0 where
  pub subject : Text
  pub username : Text

pub record Target : Type 0 where
  pub keycloak_user_id : Option Text
  pub matrix_user_id : Option Text

unfoldable pub seconds : Option ℕ → ℕ
seconds none = 0
seconds (some s) = s

-- The value and the tables after the write, given the error that SQLite reports, if any.
unfoldable pub written : Text → AuditLog → Option Text → Database → Done × Database
written unique entry (some message) db = (err (AppError.database message), db)
written unique entry none db =
    if any (λ row. text_eq row.id entry.id) db.audit_logs
    then (err (AppError.database unique), db)
    else (ok tt, record db { audit_logs = db.audit_logs ++ entry ∷ [] })

module _ {W : Type 0} (audit : AuditService W) where
  unfoldable pub insert : AuditLog → Exec W Done
  insert entry w =
      let (failure, u) = audit.write_error entry w.upstream in
      let (r, db) = written audit.unique_violation entry failure w.db in
      record {
        value = r;
        world = record { upstream = u; db = db };
        events = event (Op.insert_audit entry) (is_ok r) ∷ [];
      }

  abbrev pub entry_of : Actor → Target → Text → AuditResult → Metadata → Text → Option ℕ → AuditLog
  entry_of who whom action result metadata id now = record {
    id = id;
    timestamp = chrono_now (seconds now);
    admin_subject = who.subject;
    admin_username = who.username;
    target_keycloak_user_id = whom.keycloak_user_id;
    target_matrix_user_id = whom.matrix_user_id;
    action = action;
    result = audit_text result;
    metadata_json = audit.metadata_text metadata;
  }

  unfoldable pub log : Actor → Target → Text → AuditResult → Metadata → Exec W Done
  log who whom action result metadata = do
    id ← ask audit.new_v4
    now ← ask audit.unix_time
    insert (entry_of who whom action result metadata id now)
