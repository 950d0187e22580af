-- ===== src/Tests/Policy.antt =====
-- The policy service on a table with one binding.
use matrix_identity_admin.Prelude.{[], ◌∷◌, none, true, false, ◌≡◌, refl, suc, ℕ, keep}
use matrix_identity_admin.Models.Policy.{PolicySubject, PolicyTarget}
use matrix_identity_admin.Effects.Database.{Database}
use matrix_identity_admin.Effects.Exec.{World, or_return, ◌>>=◌}
use matrix_identity_admin.PolicyTables.{
  clash, same_key, has_valid_types, statement, attempt, inserted, insert_binding, has_bootstrapped,
  mark_bootstrapped,
}
use matrix_identity_admin.PolicyService.{
  PolicyService, row_of, create_binding, update_binding, delete_binding, bootstrap_from_env,
  effective_bindings_for_user, import_new, import_mappings,
}
use matrix_identity_admin.PolicyService.Constraints.{Distinct, operations-Distinct}
use matrix_identity_admin.PolicyService.Bindings.{Created, create_binding-Created}
use matrix_identity_admin.PolicyService.Logged.{update_metadata, deletion_metadata}
use matrix_identity_admin.PolicyService.Changes.{
  Changed, update_named, delete_named, update_binding-Changed, delete_binding-Changed,
}
use matrix_identity_admin.PolicyService.Bootstrap.{
  Imported, Skipped, bootstrap_from_env-Imported, bootstrap_from_env-Once,
}
use matrix_identity_admin.PolicyService.Effective.{effective_bindings_for_user_lem}
use matrix_identity_admin.Reconcile.{user_matches_binding}
use matrix_identity_admin.Text.{text_eq, codes}
use matrix_identity_admin.Models.Policy.{subject_type, target_type, value, room_id, GroupMapping}
use matrix_identity_admin.Models.Error.{ok}
use matrix_identity_admin.Tests.Services.{audit, admin, empty_database, bindings}

abbrev service : PolicyService ℕ
service = record {
  sqlite = record { failure = λ n. (none, n); constraint_failed = 1 ∷ [] };
  new_v4 = λ n. (n ∷ [], suc n);
  now = λ n. (9 ∷ [], n);
}

abbrev stored_db : Database
stored_db = record empty_database {
  policy_bindings =
      row_of (50 ∷ []) (PolicySubject.role (51 ∷ [])) (PolicyTarget.room (52 ∷ [])) none false []
      ∷ [];
}

abbrev one_binding : World ℕ
one_binding = record { upstream = 3; db = stored_db }

stored_db-Distinct : Distinct stored_db
unfolding has_valid_types clash same_key text_eq codes subject_type target_type
stored_db-Distinct = refl

abbrev mapping : GroupMapping
mapping = record { keycloak_group = 60 ∷ []; matrix_room_id = 61 ∷ [] }

operations-Distinct_example :
    Distinct
      (create_binding service audit admin
        (PolicySubject.group (1 ∷ []))
        (PolicyTarget.space (2 ∷ []))
        none
        true
        one_binding).world.db
    × Distinct (update_binding service audit admin (50 ∷ []) none true one_binding).world.db
    × Distinct (delete_binding service audit admin (50 ∷ []) one_binding).world.db
    × Distinct (bootstrap_from_env service (mapping ∷ mapping ∷ []) [] one_binding).world.db
operations-Distinct_example =
    operations-Distinct service audit admin (PolicySubject.group (1 ∷ []))
      (PolicyTarget.space (2 ∷ [])) none true (50 ∷ []) (mapping ∷ mapping ∷ []) [] one_binding
      stored_db-Distinct

create_binding-Created_example :
    let r =
      create_binding service audit admin
        (PolicySubject.group (1 ∷ []))
        (PolicyTarget.space (2 ∷ []))
        none
        true
        one_binding in
    Created audit admin
      (PolicySubject.group (1 ∷ []))
      (PolicyTarget.space (2 ∷ []))
      none
      true
      stored_db
      r.world.db
      r.events
      r.value
create_binding-Created_example =
    create_binding-Created service audit admin (PolicySubject.group (1 ∷ []))
      (PolicyTarget.space (2 ∷ [])) none true one_binding

update_binding-Changed_example :
    let r = update_binding service audit admin (50 ∷ []) none true one_binding in
    Changed audit admin
      (codes "update_policy_binding")
      (update_metadata (50 ∷ []) none true)
      (50 ∷ [])
      (update_named (50 ∷ []) none true (9 ∷ []))
      stored_db
      r.world.db
      r.events
      r.value
update_binding-Changed_example =
    update_binding-Changed service audit admin (50 ∷ []) none true one_binding

delete_binding-Changed_example :
    let r = delete_binding service audit admin (50 ∷ []) one_binding in
    Changed audit admin
      (codes "delete_policy_binding")
      (deletion_metadata (50 ∷ []))
      (50 ∷ [])
      (delete_named (50 ∷ []))
      stored_db
      r.world.db
      r.events
      r.value
delete_binding-Changed_example = delete_binding-Changed service audit admin (50 ∷ []) one_binding

bootstrap_from_env-Imported_example :
    let r = bootstrap_from_env service (mapping ∷ mapping ∷ []) [] one_binding in
    Imported (mapping ∷ mapping ∷ []) stored_db r.world.db r.value
bootstrap_from_env-Imported_example =
    bootstrap_from_env-Imported service (mapping ∷ mapping ∷ []) [] one_binding refl

imported_one : (bootstrap_from_env service (mapping ∷ mapping ∷ []) [] one_binding).value ≡ ok 1
unfolding bootstrap_from_env import_new import_mappings has_bootstrapped mark_bootstrapped
    insert_binding statement attempt inserted has_valid_types clash same_key text_eq codes
    subject_type target_type value room_id or_return ◌>>=◌
imported_one = refl

-- The first run, and a later one after all bindings have been deleted.
abbrev imported_world : World ℕ
imported_world =
    let first = (bootstrap_from_env service (mapping ∷ mapping ∷ []) [] one_binding).world in
    record first { db = record first.db { policy_bindings = [] } }

bootstrap_from_env-Once_example :
    let r = bootstrap_from_env service (mapping ∷ []) [] imported_world in
    Skipped imported_world.db r.world.db r.value
bootstrap_from_env-Once_example =
    bootstrap_from_env-Once service (mapping ∷ mapping ∷ []) (mapping ∷ []) [] [] one_binding
      imported_world 1 imported_one refl

effective_bindings_for_user_example :
    effective_bindings_for_user bindings ((11 ∷ []) ∷ []) []
    ≡ keep (λ b. user_matches_binding b ((11 ∷ []) ∷ []) []) bindings
effective_bindings_for_user_example = effective_bindings_for_user_lem bindings ((11 ∷ []) ∷ []) []
