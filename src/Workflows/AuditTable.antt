-- ===== src/Workflows/AuditTable.antt =====
-- src/db/audit.rs under the workflows: the audit table before and after a run.
use matrix_identity_admin.Prelude.{
  List, [], ◌∷◌, ◌++◌, append-nil, append_assoc, Option, none, some, Bool, true, ◌≡◌, refl, sym, ap,
  ◌∙◌, Bool-cases, any, inl, inr,
}
use matrix_identity_admin.Text.{Text, text_eq}
use matrix_identity_admin.Models.Error.{Result, is_ok}
use matrix_identity_admin.Models.Audit.{AuditResult, Metadata, AuditLog}
use matrix_identity_admin.Models.Accounts.{KeycloakUser}
use matrix_identity_admin.Models.Policy.{PolicyBinding}
use matrix_identity_admin.Effects.Database.{Database}
use matrix_identity_admin.Effects.Event.{Op, Event, Kind, event, kind, is_audited, is_plain}
use matrix_identity_admin.Effects.Exec.{World, call, call_if, ◌>>=◌}
use matrix_identity_admin.Effects.Rules.{Trace, Holds, Holds-bind}
use matrix_identity_admin.Effects.Clients.{KeycloakIdentityProvider, AuthService, MatrixService}
use matrix_identity_admin.Effects.Clients.Keycloak
use matrix_identity_admin.AuditService.{AuditService, Actor, Target, log, insert, written}
use matrix_identity_admin.Lifecycle.{Subject, log_result}
use matrix_identity_admin.Lifecycle.Observes.{Observes}
use matrix_identity_admin.Workflows.{
  subject_of, disable_user, reactivate_user, delete_user, offboard_user,
}
use matrix_identity_admin.Workflows.Steps.{
  everything, disable_user-Holds, reactivate_user-Holds, delete_user-Holds, offboard_user-Holds,
}
use matrix_identity_admin.Reconcile.{reconcile_membership}
use matrix_identity_admin.Reconcile.Steps.{reconcile_membership-Holds}

abbrev entry_written : Op → Bool → List AuditLog
entry_written (Op.insert_audit entry) true = entry ∷ []
entry_written _ _ = []

-- The audit entries that were written in a run.
abbrev pub entries : List Event → List AuditLog
entries [] = []
entries (e ∷ es) = entry_written e.op e.succeeded ++ entries es

-- The database with more audit entries.
abbrev pub logged : Database → List AuditLog → Database
logged db more = record db { audit_logs = db.audit_logs ++ more }

entries-append : (xs ys : List Event) → entries (xs ++ ys) ≡ entries xs ++ entries ys
entries-append [] ys = refl
entries-append (x ∷ xs) ys =
    ap (λ t. entry_written x.op x.succeeded ++ t) (entries-append xs ys)
    ∙ sym (append_assoc (entry_written x.op x.succeeded) (entries xs) (entries ys))

abbrev Grows : Database → Database → List Event → Type 0
Grows a b es = b ≡ logged a (entries es)

Grows-empty : (a : Database) → Grows a a []
Grows-empty a = ap (λ t. record a { audit_logs = t }) (sym (append-nil a.audit_logs))

Grows-append :
    (a b c : Database) (xs ys : List Event) → Grows a b xs → Grows b c ys → Grows a c (xs ++ ys)
Grows-append a b c xs ys h k =
    k
    ∙ ap (λ t. logged t (entries ys)) h
    ∙ ap (λ t. record a { audit_logs = t })
        (append_assoc a.audit_logs (entries xs) (entries ys)
          ∙ ap (λ t. a.audit_logs ++ t) (sym (entries-append xs ys)))

abbrev TableTrace : (W : Type 0) → Trace W
TableTrace W = record {
  Valid = λ a b es. Grows a.db b.db es;
  empty = λ w. Grows-empty w.db;
  append = λ a b c xs ys. Grows-append a.db b.db c.db xs ys;
}

entry_written_plain :
    (op : Op) (good : Bool) → is_plain (kind op) ≡ true → entry_written op good ≡ []
entry_written_plain (Op.insert_audit entry) good h = cc
entry_written_plain _ good h = refl

entry_written_audited :
    (op : Op) (good : Bool) → is_audited (kind op) ≡ true → entry_written op good ≡ []
entry_written_audited (Op.insert_audit entry) good h = cc
entry_written_audited _ good h = refl

Grows-quiet :
    (a : Database) (op : Op) (good : Bool)
    → entry_written op good ≡ []
    → Grows a a (event op good ∷ [])
Grows-quiet a op good h = Grows-empty a ∙ ap (λ t. logged a (t ++ [])) (sym h)

-- A write appends its entry exactly if it succeeds.
Grows-written :
    (unique : Text) (entry : AuditLog) (failure : Option Text) (db : Database)
    → Grows db
        (written unique entry failure db).1
        (event (Op.insert_audit entry) (is_ok (written unique entry failure db).0) ∷ [])
unfolding written
Grows-written unique entry (some message) db = Grows-empty db
Grows-written unique entry none db =
    elim (Bool-cases (any (λ row. text_eq row.id entry.id) db.audit_logs)) [
      | inl taken ↦ rw taken (Grows-empty db)
      | inr free ↦ rw free refl
    ]

module _ {W : Type 0} where
  Grows-plain :
      (A : Type 0) (op : Op) (good : A → Bool) (f : W → A × W)
      → is_plain (kind op) ≡ true
      → Holds (TableTrace W) (call_if op good f)
  Grows-plain A op good f h = record {
    at = λ w. Grows-quiet w.db op _ (entry_written_plain op _ h);
  }

  Grows-audited :
      (A : Type 0) (op : Op) (f : W → Result A × W)
      → is_audited (kind op) ≡ true
      → Holds (TableTrace W) (call op f)
  Grows-audited A op f h = record { at = λ w. Grows-quiet w.db op _ (entry_written_audited op _ h) }

  Grows-log :
      (audit : AuditService W) (who : Actor) (whom : Target) (action : Text) (result : AuditResult)
      (metadata : Metadata)
      → Holds (TableTrace W) (log audit who whom action result metadata)
  unfolding log insert ◌>>=◌
  Grows-log audit who whom action result metadata = record {
    at = λ w. Grows-written audit.unique_violation _ _ w.db;
  }

  Grows-Observes :
      (audit : AuditService W) (who : Actor) (user : Subject) (allowed : Kind → Bool)
      → Observes (TableTrace W) audit who user allowed
  unfolding log_result
  Grows-Observes audit who user allowed = record {
    plain = λ A op good f h _. Grows-plain A op good f h;
    logged = λ A B op f action metadata k h _ hk.
        Holds-bind (TableTrace W) _ _ (Grows-audited A op f h)
          λ r. Holds-bind (TableTrace W) _ _ (Grows-log audit who _ action _ metadata) (hk r);
  }

  Grows-get_user :
      (kc : KeycloakIdentityProvider W) (id : Text) → Holds (TableTrace W) (Keycloak.get_user kc id)
  Grows-get_user kc id = Grows-plain _ (Op.get_user id) is_ok _ refl

module _ {W : Type 0} (kc : KeycloakIdentityProvider W) (mas : AuthService W)
    (audit : AuditService W) (who : Actor) (domain : Text) (keycloak_id : Text) (w : World W) where
  -- After a run of `disable_user`, `reactivate_user`, `delete_user` or `offboard_user`, on success
  -- and on error alike, the database is the one before it with the audit entries appended that the
  -- run wrote successfully, in their order: no entry is changed or lost and no other table touched.
  pub workflows-append_only :
      (synapse : Option (MatrixService W)) (bindings : List PolicyBinding)
      → (let r = disable_user kc mas audit who domain keycloak_id w in
          r.world.db ≡ logged w.db (entries r.events))
        × (let r = reactivate_user kc mas audit who domain keycloak_id w in
            r.world.db ≡ logged w.db (entries r.events))
        × (let r = delete_user kc mas audit who domain keycloak_id w in
            r.world.db ≡ logged w.db (entries r.events))
        × (let r = offboard_user kc mas audit who domain synapse bindings keycloak_id w in
            r.world.db ≡ logged w.db (entries r.events))
  workflows-append_only synapse bindings =
      let T = TableTrace W in
      let o = λ (u : KeycloakUser).
        Grows-Observes audit who (subject_of domain keycloak_id u) everything in
      let first = Grows-get_user kc keycloak_id in
      (
        (disable_user-Holds T kc mas audit who domain keycloak_id o first).at w,
        (reactivate_user-Holds T kc mas audit who domain keycloak_id o first).at w,
        (delete_user-Holds T kc mas audit who domain keycloak_id o first).at w,
        (offboard_user-Holds T kc mas audit who domain keycloak_id o first synapse bindings).at w,
      )

-- After a run of `reconcile_membership` the database is the one before it with the audit entries
-- appended that the run wrote successfully, in their order.
pub reconcile_membership-append_only :
    {W : Type 0} (audit : AuditService W) (who : Actor) (synapse : MatrixService W) (user : Subject)
    (bindings : List PolicyBinding) (groups roles : List Text) (w : World W)
    → let r = reconcile_membership audit who synapse user bindings groups roles w in
      r.world.db ≡ logged w.db (entries r.events)
reconcile_membership-append_only {W} audit who synapse user bindings groups roles w =
    (reconcile_membership-Holds (TableTrace W) audit who user everything
        (Grows-Observes audit who user everything) refl refl refl refl synapse bindings groups
        roles).at
      w
