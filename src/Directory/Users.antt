-- ===== src/Directory/Users.antt =====
-- src/services/user_service.rs over src/clients/identity_provider.rs, which src/clients/keycloak.rs
-- implements. Of two futures that are joined, either may run first: `order` says whether it is the
-- first one.
pub mod Detail
use matrix_identity_admin.Prelude.{
  ℕ, List, [], ◌∷◌, ◌++◌, map, Option, none, some, Bool, is_some, if◌then◌else◌,
}
use matrix_identity_admin.Text.{Text, codes}
use matrix_identity_admin.Models.Error.{AppError, Result, ok, err, error_text}
use matrix_identity_admin.Models.Accounts.{
  KeycloakUser, CanonicalUser, MasUser, MasSession, SessionListResult, LifecycleState,
  CorrelationStatus,
}
use matrix_identity_admin.Effects.Exec.{Exec, pure, try_then, ◌>>=◌}
use matrix_identity_admin.Effects.Clients.{KeycloakIdentityProvider, AuthService}
use matrix_identity_admin.Effects.Clients.Keycloak
use matrix_identity_admin.Effects.Clients.Mas
use matrix_identity_admin.Workflows.{found_user}
use matrix_identity_admin.Directory.{
  MappedIdentity, derive_lifecycle_state, derive_matrix_id, map_identity, map_summary_only,
}

pub record IdentityProvider (W : Type 0) : Type 0 where
  pub search_users : Text → ℕ → ℕ → Exec W (Result (List CanonicalUser))
  pub get_user : Text → Exec W (Result CanonicalUser)
  pub get_user_groups : Text → Exec W (Result (List Text))
  pub get_user_roles : Text → Exec W (Result (List Text))
  pub logout_user : Text → Exec W (Result (Unit {0}))
  pub count_users : Text → Exec W (Result ℕ)

unfoldable pub canonical_of : KeycloakUser → CanonicalUser
canonical_of u = record {
  id = u.id;
  username = u.username;
  email = u.email;
  first_name = u.first_name;
  last_name = u.last_name;
  enabled = u.enabled;
  groups = [];
  roles = [];
  required_actions = u.required_actions;
}

unfoldable pub identity_provider : {W : Type 0} → KeycloakIdentityProvider W → IdentityProvider W
identity_provider kc = record {
  search_users = λ query max first.
      try_then (Keycloak.search_users kc query max first)
        λ users. pure (ok (map canonical_of users));
  get_user = λ id. try_then (Keycloak.get_user kc id) λ u. pure (ok (canonical_of u));
  get_user_groups = λ id.
      try_then (Keycloak.get_user_groups kc id) λ groups. pure (ok (map (λ g. g.name) groups));
  get_user_roles =
      λ id. try_then (Keycloak.get_user_roles kc id) λ roles. pure (ok (map (λ r. r.name) roles));
  logout_user = λ id. Keycloak.logout_user kc id;
  count_users = λ query. Keycloak.count_users kc query;
}

pub record UnifiedUserSummary : Type 0 where
  pub keycloak_id : Text
  pub username : Text
  pub email : Option Text
  pub enabled : Bool
  pub lifecycle_state : LifecycleState
  pub inferred_matrix_id : Option Text
  pub correlation_status : CorrelationStatus

pub record UnifiedSession : Type 0 where
  pub id : Text
  pub session_type : Text
  pub created_at : Option Text
  pub last_active_at : Option Text
  pub user_agent : Option Text
  pub ip_address : Option Text
  pub state : Text

pub record UnifiedUserDetail : Type 0 where
  pub keycloak_id : Text
  pub username : Text
  pub email : Option Text
  pub first_name : Option Text
  pub last_name : Option Text
  pub enabled : Bool
  pub lifecycle_state : LifecycleState
  pub groups : List Text
  pub roles : List Text
  pub matrix_id : Option Text
  pub correlation_status : CorrelationStatus
  pub sessions : List UnifiedSession

unfoldable pub unified_session : MasSession → UnifiedSession
unified_session s = record {
  id = s.id;
  session_type = s.session_type;
  created_at = s.created_at;
  last_active_at = s.last_active_at;
  user_agent = s.user_agent;
  ip_address = s.ip_address;
  state = if is_some s.finished_at then codes "finished" else codes "active";
}

-- `unwrap_or_else(|e| vec![])`
abbrev pub or_empty {ℓ} : {A : Type ℓ} → Result (List A) → List A
or_empty (ok xs) = xs
or_empty (err e) = []

unfoldable pub or_no_sessions : Result SessionListResult → SessionListResult
or_no_sessions (ok r) = r
or_no_sessions (err e) = record {
  sessions = [];
  warnings = (codes "MAS session list failed: " ++ error_text e) ∷ [];
}

-- `tokio::join!`
unfoldable pub join_both : {W A B : Type 0} → Bool → Exec W A → Exec W B → Exec W (A × B)
join_both order m n =
    if order then (do a ← m; b ← n; pure (a, b)) else (do b ← n; a ← m; pure (a, b))

abbrev pub deactivated_at : Option MasUser → Option Text
deactivated_at none = none
deactivated_at (some u) = u.deactivated_at

abbrev pub mas_id : Option MasUser → Option Text
mas_id none = none
mas_id (some u) = some u.id

-- What follows `groups_result` and `roles_result`.
unfoldable pub with_names : CanonicalUser → Result (List Text) × Result (List Text) → CanonicalUser
with_names u (groups, roles) = record u { groups = or_empty groups; roles = or_empty roles }

module _ (homeserver_domain : Text) where
  unfoldable pub summary_of : CanonicalUser → UnifiedUserSummary
  summary_of u =
      let mapped = map_summary_only homeserver_domain u in
      record {
        keycloak_id = mapped.canonical.id;
        username = mapped.canonical.username;
        email = mapped.canonical.email;
        enabled = mapped.canonical.enabled;
        lifecycle_state =
            derive_lifecycle_state mapped.canonical.enabled mapped.canonical.required_actions none;
        inferred_matrix_id = mapped.inferred_matrix_id;
        correlation_status = mapped.correlation_status;
      }

  unfoldable pub detail_of : CanonicalUser → Option MasUser → List MasSession → UnifiedUserDetail
  detail_of u mas_user sessions = record {
    keycloak_id = u.id;
    username = u.username;
    email = u.email;
    first_name = u.first_name;
    last_name = u.last_name;
    enabled = u.enabled;
    lifecycle_state = derive_lifecycle_state u.enabled u.required_actions (deactivated_at mas_user);
    groups = u.groups;
    roles = u.roles;
    matrix_id = derive_matrix_id homeserver_domain u.username;
    correlation_status = (map_identity homeserver_domain u (mas_id mas_user)).correlation_status;
    sessions = map unified_session sessions;
  }

module _ {W : Type 0} (idp : IdentityProvider W) (mas : AuthService W)
    (homeserver_domain : Text) where
  unfoldable pub search : Text → ℕ → ℕ → Exec W (Result (List UnifiedUserSummary))
  search query max first =
      try_then (idp.search_users query max first)
        λ users. pure (ok (map (summary_of homeserver_domain) users))

  unfoldable pub sessions_of : Option MasUser → Exec W (List MasSession)
  sessions_of none = pure []
  sessions_of (some u) = do
    result ← Mas.list_sessions mas u.id
    pure (or_no_sessions result).sessions

  unfoldable pub detail_for : Bool → Text → CanonicalUser → Exec W (Result UnifiedUserDetail)
  detail_for order user_id found = do
    names ← join_both order (idp.get_user_groups user_id) (idp.get_user_roles user_id)
    let canonical = with_names found names
    looked_up ← Mas.get_user_by_username mas canonical.username
    sessions ← sessions_of (found_user looked_up)
    pure (ok (detail_of homeserver_domain canonical (found_user looked_up) sessions))

  unfoldable pub get_detail : Bool → Text → Exec W (Result UnifiedUserDetail)
  get_detail order user_id = try_then (idp.get_user user_id) (detail_for order user_id)
