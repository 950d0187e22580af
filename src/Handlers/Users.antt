-- ===== src/Handlers/Users.antt =====
-- src/handlers/users.rs: the search page and the page of one user, up to their templates. The page
-- number is a u32; its product wraps around, as in a build without overflow checks.
pub mod Counts
use matrix_identity_admin.Prelude.{
  ℕ, ◌+◌, ◌-◌, ◌*◌, ◌/◌, ◌%◌, ◌^◌, List, [], ◌∷◌, map, keep, Option, none, some, Bool, leb, is_some,
  is_empty, length, if◌then◌else◌,
}
use matrix_identity_admin.Text.{Text, codes, text_eq}
use matrix_identity_admin.Models.Error.{Result, ok, err}
use matrix_identity_admin.Models.Audit.{AuditLog}
use matrix_identity_admin.Effects.Exec.{Exec, pure, or_return, try_then, ◌>>=◌}
use matrix_identity_admin.Effects.Clients.Keycloak
use matrix_identity_admin.AuditQueries.{AuditReader, for_user}
use matrix_identity_admin.Directory.Users.{
  UnifiedUserSummary, UnifiedUserDetail, UnifiedSession, identity_provider, or_empty, join_both,
  get_detail,
}
use matrix_identity_admin.Directory.Users as Service
use matrix_identity_admin.Handlers.Session.{AppState}
use matrix_identity_admin.Handlers.Audit.{unwrap_or_default}

abbrev pub results_per_page : ℕ
results_per_page = 25

pub record SearchParams : Type 0 where
  pub q : Option Text
  pub page : Option ℕ

abbrev pub at_least_one : ℕ → ℕ
at_least_one n = if leb 1 n then n else 1

-- `params.page.unwrap_or(1).max(1)`
unfoldable pub search_page : Option ℕ → ℕ
search_page none = 1
search_page (some n) = at_least_one n

-- `div_ceil`
abbrev pub div_ceil : ℕ → ℕ → ℕ
div_ceil a b = (a + (b - 1)) / b

pub record SearchPage : Type 0 where
  pub results : List UnifiedUserSummary
  pub page : ℕ
  pub total_pages : ℕ

pub record AuditEntry : Type 0 where
  pub timestamp : Text
  pub action : Text
  pub result : Text
  pub admin_username : Text

abbrev pub audit_entry : AuditLog → AuditEntry
audit_entry l = record {
  timestamp = l.timestamp;
  action = l.action;
  result = l.result;
  admin_username = l.admin_username;
}

pub record DetailPage : Type 0 where
  pub user : UnifiedUserDetail
  pub audit_logs : List AuditEntry
  pub synapse_enabled : Bool
  pub active_session_count : ℕ
  pub finished_session_count : ℕ

unfoldable pub count_active : List UnifiedSession → ℕ
count_active sessions = length (keep (λ s. text_eq s.state (codes "active")) sessions)

unfoldable pub detail_page : Bool → UnifiedUserDetail → List AuditLog → DetailPage
detail_page synapse_enabled user logs = record {
  user = user;
  audit_logs = map audit_entry logs;
  synapse_enabled = synapse_enabled;
  active_session_count = count_active user.sessions;
  finished_session_count = length user.sessions - count_active user.sessions;
}

module _ {W : Type 0} (state : AppState W) (reader : AuditReader W) where
  unfoldable pub search_for : Text → ℕ → Exec W (Result SearchPage)
  search_for query page = try_then (Keycloak.count_users state.keycloak query) λ total.
      try_then
        (Service.search (identity_provider state.keycloak) state.mas state.homeserver_domain query
          results_per_page ((page - 1) * results_per_page % 2 ^ 32))
        λ results. pure (
          ok (record {
            results = results;
            page = page;
            total_pages = at_least_one (div_ceil total results_per_page);
          }))

  unfoldable pub search : SearchParams → Exec W (Result SearchPage)
  search params =
      let query = unwrap_or_default params.q in
      let page = search_page params.page in
      if is_empty query
      then pure (ok (record { results = []; page = page; total_pages = 1 }))
      else search_for query page

  -- `first` and `order` order the two joins.
  unfoldable pub detail : Bool → Bool → Text → Exec W (Result DetailPage)
  detail first order keycloak_id = do
    both ←
        join_both first
          (get_detail (identity_provider state.keycloak) state.mas state.homeserver_domain order
            keycloak_id)
          (for_user reader keycloak_id 20)
    or_return (λ user. pure (ok (detail_page (is_some state.synapse) user (or_empty both.1))))
        both.0
