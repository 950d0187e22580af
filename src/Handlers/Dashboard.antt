-- ===== src/Handlers/Dashboard.antt =====
-- src/handlers/dashboard.rs: the figures of the start page and of the status card, up to their
-- templates. The reads that the code joins are only reads; they are taken in the order they are
-- written.
use matrix_identity_admin.Prelude.{
  ℕ, ◌*◌, List, [], ◌∷◌, map, Option, none, some, Bool, is_some, length,
}
use matrix_identity_admin.Text.{Text, codes, ℤ}
use matrix_identity_admin.Models.Error.{Result, ok, err, is_ok}
use matrix_identity_admin.Models.Accounts.{OnboardingTemplate}
use matrix_identity_admin.Models.Audit.{AuditLog}
use matrix_identity_admin.Models.Rooms.{RoomList}
use matrix_identity_admin.Effects.Exec.{Exec, pure, or_return, ◌>>=◌}
use matrix_identity_admin.Effects.Clients.Keycloak
use matrix_identity_admin.Effects.Clients.Mas
use matrix_identity_admin.Effects.Clients.Synapse
use matrix_identity_admin.AuditQueries.{
  AuditReader, recent, count_actions_since, count_failures_since,
}
use matrix_identity_admin.Onboarding.File.{TemplatesFile, load_templates}
use matrix_identity_admin.Handlers.Session.{AppState}
use matrix_identity_admin.Handlers.Templates.{or_no_templates}

abbrev pub secs_24h : ℕ
secs_24h = 86400

abbrev pub secs_7d : ℕ
secs_7d = 86400 * 7

abbrev pub secs_30d : ℕ
secs_30d = 86400 * 30

unfoldable pub invite_actions : List Text
invite_actions = codes "invite_user" ∷ []

unfoldable pub lifecycle_actions : List Text
lifecycle_actions =
    codes "disable_identity_account_on_disable"
    ∷ codes "disable_identity_account_on_offboard"
    ∷ codes "reactivate_auth_account_on_reactivate"
    ∷ codes "delete_keycloak_user"
    ∷ []

pub record RecentAction : Type 0 where
  pub timestamp : Text
  pub admin_username : Text
  pub action : Text
  pub result : Text

abbrev pub recent_action : AuditLog → RecentAction
recent_action l = record {
  timestamp = l.timestamp;
  admin_username = l.admin_username;
  action = l.action;
  result = l.result;
}

-- A figure for each of the three spans.
pub record Figures : Type 0 where
  pub last_24h : ℕ
  pub last_7d : ℕ
  pub last_30d : ℕ

pub record DashboardPage : Type 0 where
  pub total_users : ℕ
  pub invites : Figures
  pub lifecycle : Figures
  pub failures : Figures
  pub recent_actions : List RecentAction
  pub synapse_enabled : Bool
  pub templates : List OnboardingTemplate

-- `unwrap_or(0)`
abbrev pub or_zero : Result ℕ → ℕ
or_zero (ok n) = n
or_zero (err e) = 0

-- `ok()`
abbrev pub if_ok {ℓ} : {A : Type ℓ} → Result A → Option A
if_ok (ok a) = some a
if_ok (err e) = none

pub record StatusCard : Type 0 where
  pub keycloak_ok : Bool
  pub mas_ok : Bool
  pub synapse_configured : Bool
  pub user_count : Option ℕ
  pub group_count : Option ℕ
  pub role_count : Option ℕ
  pub room_count : Option ℤ

abbrev pub counted_list {ℓ} : {A : Type ℓ} → Result (List A) → Option ℕ
counted_list (ok xs) = some (length xs)
counted_list (err e) = none

abbrev pub total_of : Result RoomList → Option ℤ
total_of (ok rooms) = rooms.total_rooms
total_of (err e) = none

module _ {W : Type 0} (state : AppState W) where
  unfoldable pub count_spans : (ℕ → Exec W (Result ℕ)) → Exec W Figures
  count_spans count = do
    day ← count secs_24h
    week ← count secs_7d
    month ← count secs_30d
    pure (record { last_24h = or_zero day; last_7d = or_zero week; last_30d = or_zero month })

  unfoldable pub dashboard : AuditReader W → TemplatesFile W → Exec W (Result DashboardPage)
  dashboard reader file = do
    total_users ← Keycloak.count_users state.keycloak []
    logs ← recent reader 5
    invites ← count_spans (count_actions_since reader invite_actions)
    lifecycle ← count_spans (count_actions_since reader lifecycle_actions)
    failures ← count_spans (count_failures_since reader)
    or_return
        (λ rows. do
          templates ← load_templates file
          pure (
              ok (record {
                total_users = or_zero total_users;
                invites = invites;
                lifecycle = lifecycle;
                failures = failures;
                recent_actions = map recent_action rows;
                synapse_enabled = is_some state.synapse;
                templates = or_no_templates templates;
              })))
        logs

  unfoldable pub count_rooms : Exec W (Option ℤ)
  count_rooms = elim state.synapse [
    | none ↦ pure none
    | some synapse ↦ do rooms ← Synapse.list_rooms synapse 1 none; pure (total_of rooms)
  ]

  unfoldable pub status : Exec W StatusCard
  status = do
    users ← Keycloak.count_users state.keycloak []
    checked ← Mas.get_user_by_username state.mas (codes "__status_check__")
    groups ← Keycloak.list_groups state.keycloak
    roles ← Keycloak.list_realm_roles state.keycloak
    rooms ← count_rooms
    pure (record {
      keycloak_ok = is_ok users;
      mas_ok = is_ok checked;
      synapse_configured = is_some state.synapse;
      user_count = if_ok users;
      group_count = counted_list groups;
      role_count = counted_list roles;
      room_count = rooms;
    })
