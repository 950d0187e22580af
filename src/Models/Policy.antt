-- ===== src/Models/Policy.antt =====
-- src/models/policy_binding.rs and group_mapping.rs.
use matrix_identity_admin.Prelude.{Option, Bool, ◌++◌}
use matrix_identity_admin.Text.{Text, codes, ℤ}

pub data PolicySubject : Type 0 where
  group : Text → PolicySubject
  role : Text → PolicySubject

unfoldable pub subject_type : PolicySubject → Text
subject_type (PolicySubject.group v) = codes "group"
subject_type (PolicySubject.role v) = codes "role"

unfoldable pub value : PolicySubject → Text
value (PolicySubject.group v) = v
value (PolicySubject.role v) = v

-- `Display`
unfoldable pub subject_text : PolicySubject → Text
subject_text (PolicySubject.group v) = codes "group:" ++ v
subject_text (PolicySubject.role v) = codes "role:" ++ v

pub data PolicyTarget : Type 0 where
  room : Text → PolicyTarget
  space : Text → PolicyTarget

unfoldable pub target_type : PolicyTarget → Text
target_type (PolicyTarget.room id) = codes "room"
target_type (PolicyTarget.space id) = codes "space"

unfoldable pub room_id : PolicyTarget → Text
room_id (PolicyTarget.room id) = id
room_id (PolicyTarget.space id) = id

pub record PolicyBinding : Type 0 where
  pub id : Text
  pub subject : PolicySubject
  pub target : PolicyTarget
  pub power_level : Option ℤ
  pub allow_remove : Bool
  pub created_at : Text
  pub updated_at : Text

pub record CachedRoom : Type 0 where
  pub room_id : Text
  pub name : Option Text
  pub canonical_alias : Option Text
  pub parent_space_id : Option Text
  pub is_space : Bool
  pub last_seen_at : Text

pub record GroupMapping : Type 0 where
  pub keycloak_group : Text
  pub matrix_room_id : Text
