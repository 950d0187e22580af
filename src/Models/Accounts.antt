-- ===== src/Models/Accounts.antt =====
-- src/models/keycloak.rs, mas.rs, onboarding_template.rs and unified.rs: the accounts of a user.
use matrix_identity_admin.Prelude.{ℕ, List, Option, Bool, ◌&&◌, ◌||◌, not}
use matrix_identity_admin.Prelude.{all, any, is_empty, leb, ◌==◌}
use matrix_identity_admin.Text.{Text, codes, ℤ}

pub record KeycloakUser : Type 0 where
  pub id : Text
  pub username : Text
  pub email : Option Text
  pub first_name : Option Text
  pub last_name : Option Text
  pub enabled : Bool
  pub email_verified : Bool
  pub created_timestamp : Option ℤ
  pub required_actions : List Text

pub record KeycloakGroup : Type 0 where
  pub id : Text
  pub name : Text
  pub path : Text

pub record KeycloakRole : Type 0 where
  pub id : Text
  pub name : Text
  pub composite : Bool
  pub client_role : Bool
  pub container_id : Option Text

pub record MasUser : Type 0 where
  pub id : Text
  pub username : Text
  pub deactivated_at : Option Text

pub record MasSession : Type 0 where
  pub id : Text
  pub session_type : Text
  pub created_at : Option Text
  pub last_active_at : Option Text
  pub user_agent : Option Text
  pub ip_address : Option Text
  pub finished_at : Option Text

pub record SessionListResult : Type 0 where
  pub sessions : List MasSession
  pub warnings : List Text

pub record OnboardingTemplate : Type 0 where
  pub name : Text
  pub description : Text
  pub groups : List Text
  pub roles : List Text

pub record CanonicalUser : Type 0 where
  pub id : Text
  pub username : Text
  pub email : Option Text
  pub first_name : Option Text
  pub last_name : Option Text
  pub enabled : Bool
  pub groups : List Text
  pub roles : List Text
  pub required_actions : List Text

pub data LifecycleState : Type 0 where
  invited active disabled : LifecycleState

pub data CorrelationStatus : Type 0 where
  confirmed inferred : CorrelationStatus

-- `is_ascii_lowercase`, `is_ascii_digit`
abbrev pub is_lower : ℕ → Bool
is_lower c = leb 97 c && leb c 122

abbrev pub is_digit : ℕ → Bool
is_digit c = leb 48 c && leb c 57

-- A lowercase ASCII letter, a digit, or one of `._=-/`.
unfoldable pub is_localpart_char : ℕ → Bool
unfolding codes
is_localpart_char c = is_lower c || (is_digit c || any (λ d. d == c) (codes "._=-/"))

unfoldable pub is_valid_matrix_localpart : Text → Bool
is_valid_matrix_localpart s = not (is_empty s) && all is_localpart_char s
