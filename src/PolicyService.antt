-- ===== src/PolicyService.antt =====
-- src/services/policy_service.rs: policy bindings and their log, the bindings that apply to a
-- user, the room cache, and the import of the legacy mappings.
pub mod Rows
pub mod Constraints
pub mod Logged
pub mod Bindings
pub mod Changes
pub mod Bootstrap
pub mod Effective
use matrix_identity_admin.Prelude.{
  ℕ, zero, suc, ◌+◌, List, [], ◌∷◌, Option, none, some, Bool, true, false, any, keep, not, is_empty,
  if◌then◌else◌,
}
use matrix_identity_admin.Text.{Text, codes, text_eq, ℤ}
use matrix_identity_admin.Models.Error.{Result, Done, ok, err, is_ok}
use matrix_identity_admin.Models.Audit.{AuditResult, JsonValue, Metadata}
use matrix_identity_admin.Models.Policy.{
  PolicySubject, PolicyTarget, PolicyBinding, CachedRoom, GroupMapping, subject_type, value,
  subject_text, target_type, room_id,
}
use matrix_identity_admin.Models.Rooms.{RoomListEntry}
use matrix_identity_admin.Effects.Database.{BindingRow}
use matrix_identity_admin.Effects.Exec.{Exec, pure, ask, try_then, ◌>>=◌}
use matrix_identity_admin.Effects.Clients.{MatrixService}
use matrix_identity_admin.Effects.Clients.Synapse
use matrix_identity_admin.AuditService.{AuditService, Actor, Target, log}
use matrix_identity_admin.PolicyTables.{
  Sqlite, select_bindings, insert_binding, revise_binding, remove_binding, has_bootstrapped,
  mark_bootstrapped, upsert_cached_room, select_cached_rooms,
}

-- The database, `Uuid::new_v4` and `chrono::Utc::now().to_rfc3339()`.
pub record PolicyService (W : Type 0) : Type 0 where
  pub sqlite : Sqlite W
  pub new_v4 : W → Text × W
  pub now : W → Text × W

abbrev pub no_target : Target
no_target = record { keycloak_user_id = none; matrix_user_id = none }

abbrev pub level_value : Option ℤ → JsonValue
level_value none = JsonValue.null
level_value (some level) = JsonValue.int level

-- The row that `db::policy::create_binding` inserts.
abbrev pub row_of : Text → PolicySubject → PolicyTarget → Option ℤ → Bool → Text → BindingRow
row_of id subject target power_level allow_remove now = record {
  id = id;
  subject_type = subject_type subject;
  subject_value = value subject;
  target_type = target_type target;
  target_room_id = room_id target;
  power_level = power_level;
  allow_remove = allow_remove;
  created_at = now;
  updated_at = now;
}

abbrev pub new_binding :
    Text → PolicySubject → PolicyTarget → Option ℤ → Bool → Text → PolicyBinding
new_binding id subject target power_level allow_remove now = record {
  id = id;
  subject = subject;
  target = target;
  power_level = power_level;
  allow_remove = allow_remove;
  created_at = now;
  updated_at = now;
}

abbrev pub mapped_row : Text → GroupMapping → Text → BindingRow
mapped_row id mapping now =
    row_of id (PolicySubject.group mapping.keycloak_group)
      (PolicyTarget.room mapping.matrix_room_id) none false now

abbrev pub cached : RoomListEntry → Bool → Text → CachedRoom
cached entry is_space now = record {
  room_id = entry.room_id;
  name = entry.name;
  canonical_alias = entry.canonical_alias;
  parent_space_id = none;
  is_space = is_space;
  last_seen_at = now;
}

abbrev pub is_space_of : Result (List Text) → Bool
is_space_of (ok children) = not (is_empty children)
is_space_of (err e) = false

unfoldable pub applies : List Text → List Text → PolicySubject → Bool
applies groups roles (PolicySubject.group g) = any (λ ug. text_eq ug g) groups
applies groups roles (PolicySubject.role r) = any (λ ur. text_eq ur r) roles

unfoldable pub effective_bindings_for_user :
    List PolicyBinding → List Text → List Text → List PolicyBinding
unfolding applies
effective_bindings_for_user bindings groups roles =
    keep (λ b. applies groups roles b.subject) bindings

module _ {W : Type 0} (service : PolicyService W) where
  abbrev pub list_bindings : Exec W (Result (List PolicyBinding))
  list_bindings = select_bindings service.sqlite

  abbrev pub list_cached_rooms : Exec W (Result (List CachedRoom))
  list_cached_rooms = select_cached_rooms service.sqlite

  module _ (audit : AuditService W) (who : Actor) where
    abbrev pub log_success : Text → Metadata → Exec W Done
    log_success action metadata = log audit who no_target action AuditResult.success metadata

    unfoldable pub create_binding :
        PolicySubject → PolicyTarget → Option ℤ → Bool → Exec W (Result PolicyBinding)
    create_binding subject target power_level allow_remove = do
      id ← ask service.new_v4
      now ← ask service.now
      try_then
          (insert_binding service.sqlite (row_of id subject target power_level allow_remove now))
          λ _.
            try_then
              (log_success (codes "create_policy_binding") (
                (codes "binding_id", JsonValue.string id)
                ∷ (codes "subject", JsonValue.string (subject_text subject))
                ∷ (codes "target_room_id", JsonValue.string (room_id target))
                ∷ (codes "power_level", level_value power_level)
                ∷ (codes "allow_remove", JsonValue.bool allow_remove)
                ∷ []))
              λ _. pure (ok (new_binding id subject target power_level allow_remove now))

    -- A change that hit a row is logged.
    unfoldable pub log_if : Bool → Text → Metadata → Exec W (Result Bool)
    log_if true action metadata = try_then (log_success action metadata) λ _. pure (ok true)
    log_if false action metadata = pure (ok false)

    unfoldable pub update_binding : Text → Option ℤ → Bool → Exec W (Result Bool)
    update_binding id power_level allow_remove = do
      now ← ask service.now
      try_then (revise_binding service.sqlite id power_level allow_remove now) λ updated.
          log_if updated (codes "update_policy_binding") (
            (codes "binding_id", JsonValue.string id)
            ∷ (codes "power_level", level_value power_level)
            ∷ (codes "allow_remove", JsonValue.bool allow_remove)
            ∷ [])

    unfoldable pub delete_binding : Text → Exec W (Result Bool)
    delete_binding id = try_then (remove_binding service.sqlite id) λ deleted.
        log_if deleted (codes "delete_policy_binding")
          ((codes "binding_id", JsonValue.string id) ∷ [])

  module _ (synapse : MatrixService W) where
    -- The rooms of one page; `count` counts all rooms so far.
    unfoldable pub cache_rooms : Text → ℕ → List RoomListEntry → Exec W (Result ℕ)
    cache_rooms now count [] = pure (ok count)
    cache_rooms now count (entry ∷ rest) = do
      children ← Synapse.get_space_children synapse entry.room_id
      try_then (upsert_cached_room service.sqlite (cached entry (is_space_of children) now))
          λ _. cache_rooms now (count + 1) rest

    -- The loop over the pages, which ends only when Synapse says so: `none` after `fuel` pages.
    unfoldable pub cache_pages : ℕ → Text → ℕ → Option Text → Exec W (Result (Option ℕ))
    cache_pages zero now count from = pure (ok none)
    cache_pages (suc fuel) now count from = try_then (Synapse.list_rooms synapse 100 from) λ page.
        try_then (cache_rooms now count page.rooms) λ counted. elim page.next_batch [
          | some token ↦ cache_pages fuel now counted (some token)
          | none ↦ pure (ok (some counted))
        ]

    unfoldable pub refresh_room_cache : ℕ → Exec W (Result (Option ℕ))
    refresh_room_cache fuel = do now ← ask service.now; cache_pages fuel now 0 none

  -- The loop over the mappings: a mapping that cannot be inserted is skipped.
  unfoldable pub import_mappings : Text → ℕ → List GroupMapping → Exec W ℕ
  import_mappings now count [] = pure count
  import_mappings now count (mapping ∷ rest) = do
    id ← ask service.new_v4
    result ← insert_binding service.sqlite (mapped_row id mapping now)
    import_mappings now (if is_ok result then count + 1 else count) rest

  unfoldable pub import_new : List GroupMapping → Text → Bool → Exec W (Result ℕ)
  import_new mappings source true = pure (ok 0)
  import_new mappings source false = do
    now ← ask service.now
    count ← import_mappings now 0 mappings
    try_then (mark_bootstrapped service.sqlite source now) λ _. pure (ok count)

  unfoldable pub bootstrap_from_env : List GroupMapping → Text → Exec W (Result ℕ)
  bootstrap_from_env mappings source =
      try_then (has_bootstrapped service.sqlite) λ done. import_new mappings source done
