-- ===== src/PolicyService/Constraints.antt =====
-- src/services/policy_service.rs and the constraints of the table of bindings.
use matrix_identity_admin.Prelude.{
  List, [], ◌∷◌, Option, none, some, Bool, true, false, not, any, ◌≡◌, refl, ◌∙◌, Bool-cases, inl,
  inr, if◌then◌else◌, ap, ℕ, ◌+◌,
}
use matrix_identity_admin.Text.{Text, text_eq, ℤ}
use matrix_identity_admin.Models.Error.{Result, is_ok}
use matrix_identity_admin.Models.Audit.{AuditLog, AuditResult, Metadata}
use matrix_identity_admin.Models.Policy.{PolicySubject, PolicyTarget, GroupMapping}
use matrix_identity_admin.Effects.Database.{Database, BindingRow}
use matrix_identity_admin.Effects.Exec.{World, ask, ◌>>=◌}
use matrix_identity_admin.Effects.Rules.{Trace, Holds, Holds-pure, Holds-bind, Holds-try_then}
use matrix_identity_admin.AuditService.{AuditService, Actor, Target, log, insert, written}
use matrix_identity_admin.PolicyTables.{
  Sqlite, attempt, statement, insert_binding, revise_binding, remove_binding, has_bootstrapped,
  mark_bootstrapped, has_id,
}
use matrix_identity_admin.PolicyService.{
  PolicyService, create_binding, log_if, update_binding, delete_binding, import_mappings,
  import_new, bootstrap_from_env,
}
use matrix_identity_admin.PolicyService.Rows.{
  distinct, distinct-inserted, distinct-revised, distinct-keep,
}

abbrev pub Distinct : Database → Type 0
Distinct db = distinct db.policy_bindings ≡ true

abbrev DistinctTrace : (W : Type 0) → Trace W
DistinctTrace W = record {
  Valid = λ a b es. Distinct a.db → Distinct b.db;
  empty = λ w d. d;
  append = λ a b c xs ys f g d. g (f d);
}

written-policy_bindings :
    (unique : Text) (entry : AuditLog) (failure : Option Text) (db : Database)
    → (written unique entry failure db).1.policy_bindings ≡ db.policy_bindings
unfolding written
written-policy_bindings unique entry (some message) db = refl
written-policy_bindings unique entry none db =
    elim (Bool-cases (any (λ row. text_eq row.id entry.id) db.audit_logs)) [
      | inl h ↦ rw h refl
      | inr h ↦ rw h refl
    ]

pub log-policy_bindings :
    {W : Type 0} (audit : AuditService W) (who : Actor) (whom : Target) (action : Text)
    (result : AuditResult) (metadata : Metadata) (w : World W)
    → (log audit who whom action result metadata w).world.db.policy_bindings ≡ w.db.policy_bindings
unfolding log insert ◌>>=◌
log-policy_bindings audit who whom action result metadata w =
    written-policy_bindings audit.unique_violation _ _ w.db

Distinct-attempt :
    (A : Type 0) (failure : Option Text) (f : Database → Result A × Database) (db : Database)
    → (Distinct db → Distinct (f db).1)
    → Distinct db
    → Distinct (attempt failure f db).1
unfolding attempt
Distinct-attempt A (some message) f db h d = d
Distinct-attempt A none f db h d = h d

module _ {W : Type 0} where
  Distinct-ask : (A : Type 0) (f : W → A × W) → Holds (DistinctTrace W) (ask f)
  Distinct-ask A f = record { at = λ w d. d }

  Distinct-statement :
      (A : Type 0) (sqlite : Sqlite W) (f : Database → Result A × Database)
      → ((db : Database) → Distinct db → Distinct (f db).1)
      → Holds (DistinctTrace W) (statement sqlite f)
  unfolding statement
  Distinct-statement A sqlite f h = record { at = λ w. Distinct-attempt A _ f w.db (h w.db) }

  Distinct-log :
      (audit : AuditService W) (who : Actor) (whom : Target) (action : Text) (result : AuditResult)
      (metadata : Metadata)
      → Holds (DistinctTrace W) (log audit who whom action result metadata)
  Distinct-log audit who whom action result metadata = record {
    at = λ w d. ap distinct (log-policy_bindings audit who whom action result metadata w) ∙ d;
  }

  Distinct-insert_binding :
      (sqlite : Sqlite W) (row : BindingRow) → Holds (DistinctTrace W) (insert_binding sqlite row)
  unfolding insert_binding
  Distinct-insert_binding sqlite row =
      Distinct-statement (Unit {0}) sqlite _ (distinct-inserted sqlite.constraint_failed row)

module _ {W : Type 0} (service : PolicyService W) where
  Distinct-import :
      (now : Text) (count : ℕ) (mappings : List GroupMapping)
      → Holds (DistinctTrace W) (import_mappings service now count mappings)
  unfolding import_mappings
  Distinct-import now count [] = Holds-pure (DistinctTrace W) count
  Distinct-import now count (mapping ∷ rest) =
      Holds-bind (DistinctTrace W) _ _ (Distinct-ask _ service.new_v4) λ id.
        Holds-bind (DistinctTrace W) _ _ (Distinct-insert_binding service.sqlite _)
          λ r. Distinct-import now (if is_ok r then count + 1 else count) rest

  Distinct-import_new :
      (mappings : List GroupMapping) (source : Text) (done : Bool)
      → Holds (DistinctTrace W) (import_new service mappings source done)
  unfolding import_new mark_bootstrapped
  Distinct-import_new mappings source true = Holds-pure (DistinctTrace W) _
  Distinct-import_new mappings source false =
      let T = DistinctTrace W in
      Holds-bind T _ _ (Distinct-ask _ service.now) λ now.
        Holds-bind T _ _ (Distinct-import now 0 mappings) λ count.
          Holds-try_then T _ _ (Distinct-statement (Unit {0}) service.sqlite _ (λ db d. d))
            λ _. Holds-pure T _

  Distinct-bootstrap_from_env :
      (mappings : List GroupMapping) (source : Text)
      → Holds (DistinctTrace W) (bootstrap_from_env service mappings source)
  unfolding bootstrap_from_env has_bootstrapped
  Distinct-bootstrap_from_env mappings source =
      Holds-try_then (DistinctTrace W) _ _ (Distinct-statement Bool service.sqlite _ (λ db d. d))
        (Distinct-import_new mappings source)

  module _ (audit : AuditService W) (who : Actor) where
    Distinct-log_if :
        (b : Bool) (action : Text) (metadata : Metadata)
        → Holds (DistinctTrace W) (log_if service audit who b action metadata)
    unfolding log_if
    Distinct-log_if true action metadata =
        Holds-try_then (DistinctTrace W) _ _ (Distinct-log audit who _ action _ metadata)
          λ _. Holds-pure (DistinctTrace W) _
    Distinct-log_if false action metadata = Holds-pure (DistinctTrace W) _

    Distinct-create_binding :
        (subject : PolicySubject) (target : PolicyTarget) (level : Option ℤ) (remove : Bool)
        → Holds (DistinctTrace W) (create_binding service audit who subject target level remove)
    unfolding create_binding
    Distinct-create_binding subject target level remove =
        let T = DistinctTrace W in
        Holds-bind T _ _ (Distinct-ask _ service.new_v4) λ id.
          Holds-bind T _ _ (Distinct-ask _ service.now) λ now.
            Holds-try_then T _ _ (Distinct-insert_binding service.sqlite _)
              λ _. Holds-try_then T _ _ (Distinct-log audit who _ _ _ _) λ _. Holds-pure T _

    Distinct-update_binding :
        (id : Text) (level : Option ℤ) (remove : Bool)
        → Holds (DistinctTrace W) (update_binding service audit who id level remove)
    unfolding update_binding revise_binding
    Distinct-update_binding id level remove =
        let T = DistinctTrace W in
        Holds-bind T _ _ (Distinct-ask _ service.now) λ now.
          Holds-try_then T _ _
            (Distinct-statement Bool service.sqlite _
              (λ db d. distinct-revised id level remove now db.policy_bindings ∙ d))
            λ updated. Distinct-log_if updated _ _

    Distinct-delete_binding :
        (id : Text) → Holds (DistinctTrace W) (delete_binding service audit who id)
    unfolding delete_binding remove_binding
    Distinct-delete_binding id =
        Holds-try_then (DistinctTrace W) _ _
          (Distinct-statement Bool service.sqlite _
            (λ db d. distinct-keep (λ r. not (has_id id r)) db.policy_bindings d))
          λ deleted. Distinct-log_if deleted _ _

  -- If no two rows of the table of bindings share an id, or a subject and a room, and their types
  -- are valid, then this still holds after any run of `create_binding`, `update_binding`,
  -- `delete_binding` or `bootstrap_from_env`, whatever fails in between.
  pub operations-Distinct :
      (audit : AuditService W) (who : Actor) (subject : PolicySubject) (target : PolicyTarget)
      (level : Option ℤ) (remove : Bool) (id : Text) (mappings : List GroupMapping) (source : Text)
      (w : World W)
      → Distinct w.db
      → Distinct (create_binding service audit who subject target level remove w).world.db
        × Distinct (update_binding service audit who id level remove w).world.db
        × Distinct (delete_binding service audit who id w).world.db
        × Distinct (bootstrap_from_env service mappings source w).world.db
  operations-Distinct audit who subject target level remove id mappings source w d = (
    (Distinct-create_binding audit who subject target level remove).at w d,
    (Distinct-update_binding audit who id level remove).at w d,
    (Distinct-delete_binding audit who id).at w d,
    (Distinct-bootstrap_from_env mappings source).at w d,
  )
