-- ===== src/PolicyService/Changes.antt =====
-- src/services/policy_service.rs: updates and deletions of the stored bindings.
use matrix_identity_admin.Prelude.{
  ℕ, List, [], ◌∷◌, map, Option, none, some, Bool, true, false, not, any, keep, ◌≡◌, refl, ◌∙◌, sym,
  ap, arith, Bool-cases, inl, inr, if◌then◌else◌,
}
use matrix_identity_admin.Text.{Text, codes, text_eq, ℤ}
use matrix_identity_admin.Models.Error.{Result, Done, ok, err, is_ok}
use matrix_identity_admin.Models.Audit.{AuditResult, Metadata}
use matrix_identity_admin.Models.Policy.{PolicyBinding}
use matrix_identity_admin.Effects.Database.{Database, BindingRow}
use matrix_identity_admin.Effects.Exec.{World, pure, or_return, ◌>>=◌}
use matrix_identity_admin.Effects.Event.{event, Event, Op}
use matrix_identity_admin.AuditService.{AuditService, Actor, log, insert, entry_of}
use matrix_identity_admin.PolicyTables.{
  attempt, statement, revised, has_id, binding_of_row, subject_of_row, target_of_row,
  revise_binding, remove_binding,
}
use matrix_identity_admin.PolicyService.{
  PolicyService, no_target, log_if, update_binding, delete_binding,
}
use matrix_identity_admin.PolicyService.Constraints.{log-policy_bindings}
use matrix_identity_admin.PolicyService.Logged.{Logs, update_metadata, deletion_metadata}
use matrix_identity_admin.PolicyService.Bindings.{stored}

abbrev pub is_named : Text → PolicyBinding → Bool
is_named id b = text_eq b.id id

abbrev pub update_one : Text → Option ℤ → Bool → Text → PolicyBinding → PolicyBinding
update_one id level remove now b =
    if is_named id b
    then record b { power_level = level; allow_remove = remove; updated_at = now }
    else b

-- The specification of an update on the stored bindings, and of a deletion.
abbrev pub update_named : Text → Option ℤ → Bool → Text → List PolicyBinding → List PolicyBinding
update_named id level remove now [] = []
update_named id level remove now (b ∷ bs) =
    update_one id level remove now b ∷ update_named id level remove now bs

abbrev pub delete_named : Text → List PolicyBinding → List PolicyBinding
delete_named id = keep (λ b. not (is_named id b))

-- How an operation on the binding `id` ends that should change the bindings by `f` and log an
-- entry of the action.
pub data Changed {W : Type 0} (audit : AuditService W) (who : Actor) (action : Text)
    (metadata : Metadata) (id : Text) (f : List PolicyBinding → List PolicyBinding)
    (before after : Database) (es : List Event) : Result Bool → Type 0 where
  changed :
      any (is_named id) (stored before) ≡ true
      → stored after ≡ f (stored before)
      → Logs audit who action metadata true es
      → Changed audit who action metadata id f before after es (ok true)
  absent :
      any (is_named id) (stored before) ≡ false
      → stored after ≡ stored before
      → es ≡ []
      → Changed audit who action metadata id f before after es (ok false)
  unchanged :
      (r : Result Bool)
      → is_ok r ≡ false
      → stored after ≡ stored before
      → es ≡ []
      → Changed audit who action metadata id f before after es r
  not_logged :
      (r : Result Bool)
      → is_ok r ≡ false
      → any (is_named id) (stored before) ≡ true
      → stored after ≡ f (stored before)
      → Logs audit who action metadata false es
      → Changed audit who action metadata id f before after es r

any-has_id :
    (id : Text) (rows : List BindingRow)
    → any (has_id id) rows ≡ any (is_named id) (map binding_of_row rows)
unfolding binding_of_row
any-has_id id [] = refl
any-has_id id (r ∷ rows) = ground (arith, any-has_id id rows)

binding_of_row-revised :
    (id : Text) (level : Option ℤ) (remove : Bool) (now : Text) (r : BindingRow)
    → binding_of_row (revised id level remove now r)
      ≡ update_one id level remove now (binding_of_row r)
unfolding binding_of_row revised subject_of_row target_of_row
binding_of_row-revised id level remove now r = elim (Bool-cases (text_eq r.id id)) [
  | inl h ↦ rw h refl
  | inr h ↦ rw h refl
]

stored-revised :
    (id : Text) (level : Option ℤ) (remove : Bool) (now : Text) (rows : List BindingRow)
    → map binding_of_row (map (revised id level remove now) rows)
      ≡ update_named id level remove now (map binding_of_row rows)
unfolding binding_of_row revised
stored-revised id level remove now [] = refl
stored-revised id level remove now (r ∷ rows) =
    ap (λ t. t ∷ map binding_of_row (map (revised id level remove now) rows))
      (binding_of_row-revised id level remove now r)
    ∙ ap (λ t. update_one id level remove now (binding_of_row r) ∷ t)
        (stored-revised id level remove now rows)

stored-keep :
    (id : Text) (rows : List BindingRow)
    → map binding_of_row (keep (λ r. not (has_id id r)) rows)
      ≡ delete_named id (map binding_of_row rows)
unfolding binding_of_row
stored-keep id [] = refl
stored-keep id (r ∷ rows) = ground (arith, stored-keep id rows)

update_named_absent :
    (id : Text) (level : Option ℤ) (remove : Bool) (now : Text) (bs : List PolicyBinding)
    → any (is_named id) bs ≡ false
    → update_named id level remove now bs ≡ bs
update_named_absent id level remove now [] h = refl
update_named_absent id level remove now (b ∷ bs) h =
    ground (arith, h, update_named_absent id level remove now bs)

delete_named_absent :
    (id : Text) (bs : List PolicyBinding) → any (is_named id) bs ≡ false → delete_named id bs ≡ bs
delete_named_absent id [] h = refl
delete_named_absent id (b ∷ bs) h = ground (arith, h, delete_named_absent id bs)

-- The statement of such an operation: it tells whether a binding has the id, or changes nothing.
abbrev Stated :
    Text → (List PolicyBinding → List PolicyBinding) → Database → Result Bool × Database → Type 0
Stated id f before (ok b, after) =
    (b ≡ any (is_named id) (stored before)) × (stored after ≡ f (stored before))
Stated id f before (err e, after) = after ≡ before

attempt-Stated :
    (id : Text) (f : List PolicyBinding → List PolicyBinding) (failure : Option Text)
    (g : Database → Result Bool × Database) (db : Database)
    → Stated id f db (g db)
    → Stated id f db (attempt failure g db)
unfolding attempt
attempt-Stated id f (some m) g db h = refl
attempt-Stated id f none g db h = h

module _ {W : Type 0} (service : PolicyService W) (audit : AuditService W) (who : Actor) (id : Text)
    (f : List PolicyBinding → List PolicyBinding)
    (idle : (bs : List PolicyBinding) → any (is_named id) bs ≡ false → f bs ≡ bs) where
  after_log-Changed :
      (before : Database) (action : Text) (metadata : Metadata) (uuid : Text) (time : Option ℕ)
      (l : Done) (v : World W)
      → any (is_named id) (stored before) ≡ true
      → stored v.db ≡ f (stored before)
      → let r = or_return {W = W} (λ _. pure (ok true)) l v in
        let entry = entry_of audit who no_target action AuditResult.success metadata uuid time in
        Changed audit who action metadata id f before r.world.db
          (event (Op.insert_audit entry) (is_ok l) ∷ r.events)
          r.value
  unfolding or_return
  after_log-Changed before action metadata uuid time (ok _) v found h =
      changed found h (uuid, time, refl)
  after_log-Changed before action metadata uuid time (err e) v found h =
      not_logged _ refl found h (uuid, time, refl)

  after_statement-Changed :
      (before : Database) (action : Text) (metadata : Metadata) (r : Result Bool) (v : World W)
      → Stated id f before (r, v.db)
      → let s = or_return (λ b. log_if service audit who b action metadata) r v in
        Changed audit who action metadata id f before s.world.db s.events s.value
  unfolding or_return log_if log insert ◌>>=◌
  after_statement-Changed before action metadata (err e) v h = unchanged _ refl (ap stored h) refl
  after_statement-Changed before action metadata (ok false) v (found, h) =
      absent (sym found) (h ∙ idle (stored before) (sym found)) refl
  after_statement-Changed before action metadata (ok true) v (found, h) =
      after_log-Changed before action metadata _ _ _ _ (sym found)
        (ap (map binding_of_row) (log-policy_bindings audit who _ action _ metadata v) ∙ h)

module _ {W : Type 0} (service : PolicyService W) (audit : AuditService W) (who : Actor)
    (id : Text) where
  -- If `update_binding` returns true, then a stored binding has the id, all that changed in the
  -- stored bindings is that the ones with the id got the new power level, removal flag and time,
  -- and all that was logged is one entry update_policy_binding, written with success, with the
  -- acting admin and the new values. If it returns false, then no binding has the id, the stored
  -- bindings are the same and nothing was logged. If it fails, then they are the same and nothing
  -- was logged, or they are changed so and what failed is the write of that entry.
  pub update_binding-Changed :
      (level : Option ℤ) (remove : Bool) (w : World W)
      → let r = update_binding service audit who id level remove w in
        let now = (service.now w.upstream).0 in
        Changed audit who
          (codes "update_policy_binding")
          (update_metadata id level remove)
          id
          (update_named id level remove now)
          w.db
          r.world.db
          r.events
          r.value
  unfolding update_binding revise_binding statement ◌>>=◌
  update_binding-Changed level remove w =
      let now = (service.now w.upstream).0 in
      after_statement-Changed service audit who id (update_named id level remove now)
        (update_named_absent id level remove now) w.db _ _ _ _
        (attempt-Stated id (update_named id level remove now) _ _ w.db (
          any-has_id id w.db.policy_bindings,
          stored-revised id level remove now w.db.policy_bindings,
        ))

  -- If `delete_binding` returns true, then a stored binding had the id, the stored bindings are
  -- those before without it, and all that was logged is one entry delete_policy_binding, written
  -- with success, with the acting admin and the id. If it returns false, then no binding has the
  -- id, the stored bindings are the same and nothing was logged. If it fails, then they are the
  -- same and nothing was logged, or they are changed so and what failed is the write of that entry.
  pub delete_binding-Changed :
      (w : World W)
      → let r = delete_binding service audit who id w in
        Changed audit who
          (codes "delete_policy_binding")
          (deletion_metadata id)
          id
          (delete_named id)
          w.db
          r.world.db
          r.events
          r.value
  unfolding delete_binding remove_binding statement ◌>>=◌
  delete_binding-Changed w =
      after_statement-Changed service audit who id (delete_named id) (delete_named_absent id) w.db _
        _ _ _
        (attempt-Stated id (delete_named id) _ _ w.db
          (any-has_id id w.db.policy_bindings, stored-keep id w.db.policy_bindings))
