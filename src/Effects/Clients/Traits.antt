-- ===== src/Effects/Clients/Traits.antt =====
-- The traits that the services are used through: src/clients/keycloak.rs:16-57 and
-- src/clients/mas.rs:17-33 whole, and of src/clients/synapse.rs:10-52 what the program calls. The
-- implementations talk HTTP to other programs: they are parameters. Each method, as the program
-- calls it, is an action with one event.
use matrix_identity_admin.Prelude.{ℕ, List, Option, Bool, false, is_empty}
use matrix_identity_admin.Text.{Text, ℤ}
use matrix_identity_admin.Models.Error.{Result, ok, err}
use matrix_identity_admin.Models.Accounts.{
  KeycloakUser, KeycloakGroup, KeycloakRole, MasUser, SessionListResult,
}
use matrix_identity_admin.Models.Rooms.{RoomList}
use matrix_identity_admin.Effects.Exec.{Exec}

abbrev pub Reply : Type 0 → Type 0 → Type 0
Reply W A = W → Result A × W

pub record KeycloakIdentityProvider (W : Type 0) : Type 0 where
  pub search_users : Text → ℕ → ℕ → Reply W (List KeycloakUser)
  pub count_users : Text → Reply W ℕ
  pub get_user : Text → Reply W KeycloakUser
  pub get_user_by_email : Text → Reply W (Option KeycloakUser)
  pub get_user_groups : Text → Reply W (List KeycloakGroup)
  pub get_user_roles : Text → Reply W (List KeycloakRole)
  pub logout_user : Text → Reply W Unit
  pub create_user : Text → Text → Reply W Text
  pub send_invite_email : Text → Reply W Unit
  pub delete_user : Text → Reply W Unit
  pub disable_user : Text → Reply W Unit
  pub enable_user : Text → Reply W Unit
  pub list_groups : Reply W (List KeycloakGroup)
  pub list_realm_roles : Reply W (List KeycloakRole)
  pub add_user_to_group : Text → Text → Reply W Unit
  pub assign_realm_roles : Text → List KeycloakRole → Reply W Unit

pub record AuthService (W : Type 0) : Type 0 where
  pub get_user_by_username : Text → Reply W (Option MasUser)
  pub list_sessions : Text → Reply W SessionListResult
  pub finish_session : Text → Text → Reply W Unit
  pub deactivate_user : Text → Reply W Unit
  pub reactivate_user : Text → Reply W Unit

pub record MatrixService (W : Type 0) : Type 0 where
  pub get_joined_room_members : Text → Reply W (List Text)
  pub force_join_user : Text → Text → Reply W Unit
  pub kick_user_from_room : Text → Text → Text → Reply W Unit
  pub get_space_children : Text → Reply W (List Text)
  pub list_rooms : ℕ → Option Text → Reply W RoomList
  pub set_power_level : Text → Text → ℤ → Reply W Unit

-- A session list is complete when it carries no warning about a family that was not fetched.
abbrev pub is_complete : Result SessionListResult → Bool
is_complete (ok l) = is_empty l.warnings
is_complete (err e) = false

abbrev pub Act : Type 0 → Type 0 → Type 0
Act W A = Exec W (Result A)
