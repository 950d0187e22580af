-- ===== src/KeycloakClient/Methods.antt =====
-- src/clients/keycloak.rs: the methods of the trait, each one request or none.
use matrix_identity_admin.Prelude.{
  List, [], ◌∷◌, ◌++◌, Option, none, some, true, false, is_empty, if◌then◌else◌,
}
use matrix_identity_admin.Text.{Text, codes, show_nat}
use matrix_identity_admin.Models.Error.{AppError, Result, ok, err}
use matrix_identity_admin.Models.Accounts.{KeycloakUser, KeycloakRole}
use matrix_identity_admin.Effects.Clients.{KeycloakIdentityProvider, Reply}
use matrix_identity_admin.KeycloakClient.{
  Method, Body, Http, Request, KeycloakConfig, Client, ◌>>=◌, answer, after_last_slash, request,
  user_url, sent, done, fetched,
}

abbrev required_actions : List Text
required_actions = codes "UPDATE_PASSWORD" ∷ codes "UPDATE_PROFILE" ∷ codes "VERIFY_EMAIL" ∷ []

unfoldable pub first_of : List KeycloakUser → Option KeycloakUser
first_of [] = none
first_of (u ∷ us) = some u

-- The id at the end of the Location header.
unfoldable pub created_id : Option Text → Result Text
created_id none =
    err
      (AppError.upstream (codes "keycloak") (codes "create_user response missing Location header"))
created_id (some location) = ok (after_last_slash location [])

module _ {N R : Type 0} (http : Http N R) (config : KeycloakConfig) where
  abbrev req : Method → Text → List (Text × Text) → Body → Request
  req = request http config

  unfoldable pub create_user : Text → Text → Reply (Client N) Text
  create_user username email = do
    response ← sent http config (
        req Method.post (codes "/users") []
          (Body.create_user username email true false required_actions))
    answer (created_id (http.location response))

  unfoldable pub get_user_by_email : Text → Reply (Client N) (Option KeycloakUser)
  get_user_by_email email = do
    users ← fetched http config http.json_users (
        req Method.get (codes "/users")
          ((codes "email", email) ∷ (codes "exact", codes "true") ∷ []) Body.empty)
    answer (ok (first_of users))

  unfoldable pub assign_realm_roles : Text → List KeycloakRole → Reply (Client N) (Unit {0})
  assign_realm_roles id roles =
      if is_empty roles
      then answer (ok tt)
      else done http config (
          req Method.post (user_url http config id (codes "/role-mappings/realm")) []
            (Body.roles roles))

  unfoldable pub keycloak_client : KeycloakIdentityProvider (Client N)
  keycloak_client = record {
    search_users = λ query max first. fetched http config http.json_users (
        req Method.get (codes "/users")
          ((codes "search", query)
            ∷ (codes "max", show_nat max)
            ∷ (codes "first", show_nat first)
            ∷ [])
          Body.empty);
    count_users = λ query. fetched http config http.json_count (
        req Method.get (codes "/users/count")
          (if is_empty query then [] else (codes "search", query) ∷ []) Body.empty);
    get_user = λ id.
        fetched http config http.json_user
          (req Method.get (user_url http config id []) [] Body.empty);
    get_user_by_email = λ email. get_user_by_email email;
    get_user_groups = λ id.
        fetched http config http.json_groups
          (req Method.get (user_url http config id (codes "/groups")) [] Body.empty);
    get_user_roles = λ id.
        fetched http config http.json_roles
          (req Method.get (user_url http config id (codes "/role-mappings/realm")) [] Body.empty);
    logout_user = λ id.
        done http config
          (req Method.post (user_url http config id (codes "/logout")) [] Body.empty);
    create_user = λ username email. create_user username email;
    send_invite_email = λ id. done http config (
        req Method.put (user_url http config id (codes "/execute-actions-email")) []
          (Body.actions required_actions));
    delete_user =
        λ id. done http config (req Method.delete (user_url http config id []) [] Body.empty);
    disable_user = λ id.
        done http config (req Method.put (user_url http config id []) [] (Body.enabled false));
    enable_user =
        λ id. done http config (req Method.put (user_url http config id []) [] (Body.enabled true));
    list_groups =
        fetched http config http.json_groups
          (req Method.get (codes "/groups?briefRepresentation=true") [] Body.empty);
    list_realm_roles =
        fetched http config http.json_roles
          (req Method.get (codes "/roles?briefRepresentation=true") [] Body.empty);
    add_user_to_group = λ id group.
        done http config
          (req Method.put (user_url http config id (codes "/groups/" ++ group)) [] Body.empty);
    assign_realm_roles = λ id roles. assign_realm_roles id roles;
  }
