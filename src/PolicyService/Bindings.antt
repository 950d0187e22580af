-- ===== src/PolicyService/Bindings.antt =====
-- src/services/policy_service.rs: the stored bindings as a reader sees them, and the creation.
use matrix_identity_admin.Prelude.{
  ℕ, List, [], ◌∷◌, ◌++◌, map, Option, none, some, Bool, true, false, not, ◌&&◌, any, ◌≡◌, refl,
  ◌∙◌, ap, Bool-cases, inl, inr, if◌then◌else◌,
}
use matrix_identity_admin.Text.{Text, codes, text_eq, ℤ}
use matrix_identity_admin.Models.Error.{Result, Done, ok, err, is_ok}
use matrix_identity_admin.Models.Audit.{AuditResult}
use matrix_identity_admin.Models.Policy.{
  PolicySubject, PolicyTarget, PolicyBinding, subject_type, value, target_type, room_id,
}
use matrix_identity_admin.Effects.Database.{Database, BindingRow}
use matrix_identity_admin.Effects.Exec.{World, pure, or_return, ◌>>=◌}
use matrix_identity_admin.Effects.Event.{event, Event, Op}
use matrix_identity_admin.AuditService.{AuditService, Actor, log, insert, entry_of}
use matrix_identity_admin.PolicyTables.{
  attempt, statement, inserted, has_valid_types, clash, subject_of_row, target_of_row,
  binding_of_row, insert_binding,
}
use matrix_identity_admin.PolicyService.{
  PolicyService, no_target, new_binding, row_of, create_binding, log_success,
}
use matrix_identity_admin.PolicyService.Constraints.{log-policy_bindings}
use matrix_identity_admin.PolicyService.Logged.{Logs, creation_metadata}

-- The bindings that a reader sees, up to their order.
abbrev pub stored : Database → List PolicyBinding
stored db = map binding_of_row db.policy_bindings

abbrev pub is_named : Text → PolicyBinding → Bool
is_named id b = text_eq b.id id

abbrev pub revised_binding : Text → Option ℤ → Bool → Text → PolicyBinding → PolicyBinding
revised_binding id level remove now b =
    if is_named id b
    then record b { power_level = level; allow_remove = remove; updated_at = now }
    else b

subject_of_row_lem :
    (s : PolicySubject)
    → (if text_eq (subject_type s) (codes "role")
        then PolicySubject.role (value s)
        else PolicySubject.group (value s))
      ≡ s
unfolding subject_type value text_eq codes
subject_of_row_lem (PolicySubject.group v) = refl
subject_of_row_lem (PolicySubject.role v) = refl

target_of_row_lem :
    (t : PolicyTarget)
    → (if text_eq (target_type t) (codes "space")
        then PolicyTarget.space (room_id t)
        else PolicyTarget.room (room_id t))
      ≡ t
unfolding target_type room_id text_eq codes
target_of_row_lem (PolicyTarget.room v) = refl
target_of_row_lem (PolicyTarget.space v) = refl

-- The columns that `create_binding` writes are read back as the binding that it returns.
pub binding_of_row-row_of :
    (id : Text) (subject : PolicySubject) (target : PolicyTarget) (level : Option ℤ) (remove : Bool)
    (now : Text)
    → binding_of_row (row_of id subject target level remove now)
      ≡ new_binding id subject target level remove now
unfolding binding_of_row subject_of_row target_of_row
binding_of_row-row_of id subject target level remove now =
    rw (subject_of_row_lem subject) (rw (target_of_row_lem target) refl)

map-append : {A B : Type 0} (f : A → B) (xs ys : List A) → map f (xs ++ ys) ≡ map f xs ++ map f ys
map-append f [] ys = refl
map-append f (x ∷ xs) ys = ap (λ t. f x ∷ t) (map-append f xs ys)

-- How `create_binding` ends: the new binding is stored last, and its log is written or fails; or
-- nothing is stored and nothing logged.
pub data Created {W : Type 0} (audit : AuditService W) (who : Actor) (subject : PolicySubject)
    (target : PolicyTarget) (level : Option ℤ) (remove : Bool) (before after : Database)
    (es : List Event) : Result PolicyBinding → Type 0 where
  stored_new :
      (id now : Text)
      → stored after ≡ stored before ++ new_binding id subject target level remove now ∷ []
      → Logs audit who
          (codes "create_policy_binding")
          (creation_metadata id subject target level remove)
          true
          es
      → Created audit who subject target level remove before after es
          (ok (new_binding id subject target level remove now))
  not_stored :
      (r : Result PolicyBinding)
      → is_ok r ≡ false
      → stored after ≡ stored before
      → es ≡ []
      → Created audit who subject target level remove before after es r
  not_logged :
      (id now : Text) (r : Result PolicyBinding)
      → is_ok r ≡ false
      → stored after ≡ stored before ++ new_binding id subject target level remove now ∷ []
      → Logs audit who
          (codes "create_policy_binding")
          (creation_metadata id subject target level remove)
          false
          es
      → Created audit who subject target level remove before after es r

-- An insertion adds the row at the end, or changes nothing and fails.
abbrev pub Inserted : BindingRow → Database → Done × Database → Type 0
Inserted row db (ok _, after) = after.policy_bindings ≡ db.policy_bindings ++ row ∷ []
Inserted row db (err e, after) = after ≡ db

pub attempt-Inserted :
    (message : Text) (row : BindingRow) (db : Database) (failure : Option Text)
    → Inserted row db (attempt failure (inserted message row) db)
unfolding attempt inserted
attempt-Inserted message row db (some m) = refl
attempt-Inserted message row db none =
    elim (Bool-cases (has_valid_types row && not (any (λ r. clash r row) db.policy_bindings))) [
      | inl h ↦ rw h refl
      | inr h ↦ rw h refl
    ]

module _ {W : Type 0} (service : PolicyService W) (audit : AuditService W) (who : Actor)
    (subject : PolicySubject) (target : PolicyTarget) (level : Option ℤ) (remove : Bool) where
  abbrev made : Text → Text → PolicyBinding
  made id now = new_binding id subject target level remove now

  after_log-Created :
      (before : Database) (uuid : Text) (time : Option ℕ) (id now : Text) (l : Done) (v : World W)
      → stored v.db ≡ stored before ++ made id now ∷ []
      → let r = or_return {W = W} (λ _. pure (ok (made id now))) l v in
        let entry =
          entry_of audit who no_target
            (codes "create_policy_binding")
            AuditResult.success
            (creation_metadata id subject target level remove)
            uuid
            time in
        Created audit who subject target level remove before r.world.db
          (event (Op.insert_audit entry) (is_ok l) ∷ r.events)
          r.value
  unfolding or_return
  after_log-Created before uuid time id now (ok _) v h = stored_new id now h (uuid, time, refl)
  after_log-Created before uuid time id now (err e) v h =
      not_logged id now _ refl h (uuid, time, refl)

  after_insert-Created :
      (before : Database) (id now : Text) (r : Done) (v : World W)
      → Inserted (row_of id subject target level remove now) before (r, v.db)
      → let s =
          or_return
            (λ _.
              log_success service audit who
                (codes "create_policy_binding")
                (creation_metadata id subject target level remove)
              >>= or_return (λ _. pure (ok (made id now))))
            r
            v in
        Created audit who subject target level remove before s.world.db s.events s.value
  unfolding or_return log insert ◌>>=◌
  after_insert-Created before id now (err e) v h = not_stored _ refl (ap stored h) refl
  after_insert-Created before id now (ok _) v h = after_log-Created before _ _ id now _ _ (
      ap (map binding_of_row) (log-policy_bindings audit who _ _ _ _ v ∙ h)
      ∙ map-append binding_of_row before.policy_bindings _
      ∙ ap (λ t. stored before ++ t ∷ [])
          (binding_of_row-row_of id subject target level remove now))

  -- If `create_binding` returns a binding, then it has the subject, target, power level and
  -- removal flag that were asked for, the stored bindings, read back from their rows, are those
  -- before with it at the end, and all that was logged is one entry create_policy_binding, written
  -- with success, with the acting admin and the binding's values. If it fails, then the stored
  -- bindings are the same and nothing was logged, or a new binding is stored and what failed is the
  -- write of that entry.
  pub create_binding-Created :
      (w : World W)
      → let r = create_binding service audit who subject target level remove w in
        Created audit who subject target level remove w.db r.world.db r.events r.value
  unfolding create_binding insert_binding statement ◌>>=◌
  create_binding-Created w =
      after_insert-Created w.db _ _ _ _ (attempt-Inserted service.sqlite.constraint_failed _ w.db _)
