-- ===== src/Effects/Clients/Keycloak.antt =====
-- The methods of `KeycloakIdentityProvider` as actions.
use matrix_identity_admin.Prelude.{ℕ, List, Option, map}
use matrix_identity_admin.Text.{Text}
use matrix_identity_admin.Models.Accounts.{KeycloakUser, KeycloakGroup, KeycloakRole}
use matrix_identity_admin.Effects.Event.{Op}
use matrix_identity_admin.Effects.Exec.{call}
use matrix_identity_admin.Effects.Clients.Traits.{Act, KeycloakIdentityProvider}

module _ {W : Type 0} (kc : KeycloakIdentityProvider W) where
  abbrev pub search_users : Text → ℕ → ℕ → Act W (List KeycloakUser)
  search_users query max first =
      call (Op.search_users query max first) (kc.search_users query max first)

  abbrev pub count_users : Text → Act W ℕ
  count_users query = call (Op.count_users query) (kc.count_users query)

  abbrev pub get_user : Text → Act W KeycloakUser
  get_user id = call (Op.get_user id) (kc.get_user id)

  abbrev pub get_user_by_email : Text → Act W (Option KeycloakUser)
  get_user_by_email email = call (Op.get_user_by_email email) (kc.get_user_by_email email)

  abbrev pub get_user_groups : Text → Act W (List KeycloakGroup)
  get_user_groups id = call (Op.get_user_groups id) (kc.get_user_groups id)

  abbrev pub get_user_roles : Text → Act W (List KeycloakRole)
  get_user_roles id = call (Op.get_user_roles id) (kc.get_user_roles id)

  abbrev pub logout_user : Text → Act W Unit
  logout_user id = call (Op.logout_user id) (kc.logout_user id)

  abbrev pub create_user : Text → Text → Act W Text
  create_user username email = call (Op.create_user username email) (kc.create_user username email)

  abbrev pub send_invite_email : Text → Act W Unit
  send_invite_email id = call (Op.send_invite_email id) (kc.send_invite_email id)

  abbrev pub delete_user : Text → Act W Unit
  delete_user id = call (Op.delete_user id) (kc.delete_user id)

  abbrev pub disable_user : Text → Act W Unit
  disable_user id = call (Op.disable_user id) (kc.disable_user id)

  abbrev pub enable_user : Text → Act W Unit
  enable_user id = call (Op.enable_user id) (kc.enable_user id)

  abbrev pub list_groups : Act W (List KeycloakGroup)
  list_groups = call Op.list_groups kc.list_groups

  abbrev pub list_realm_roles : Act W (List KeycloakRole)
  list_realm_roles = call Op.list_realm_roles kc.list_realm_roles

  abbrev pub add_user_to_group : Text → Text → Act W Unit
  add_user_to_group id group = call (Op.add_user_to_group id group) (kc.add_user_to_group id group)

  abbrev pub assign_realm_roles : Text → List KeycloakRole → Act W Unit
  assign_realm_roles id roles =
      call (Op.assign_realm_roles id (map (λ r. r.name) roles)) (kc.assign_realm_roles id roles)
