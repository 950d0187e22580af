-- ===== src/Tests/Web.antt =====
-- The handlers and the audit queries at concrete requests: two audit entries, one with a comma and
-- a quote in a field, and a Keycloak that serves its users by pages.
use mathlib.Core.List.{mem-cons, not-mem-nil, Pairwise, Perm}
use mathlib.Core.List.Perm
use mathlib.Core.Path.{subst}
use mathlib.Core.Logic.Or
use matrix_identity_admin.Prelude.{
  ℕ, List, [], ◌∷◌, ◌++◌, map, none, some, true, keep, length, ◌≡◌, ◌≢◌, refl, sym, ap, arith,
}
use matrix_identity_admin.Text.{Text, codes, text_eq, pos}
use matrix_identity_admin.Models.Error.{ok}
use matrix_identity_admin.Models.Audit.{AuditLog}
use matrix_identity_admin.Effects.Database.{Database}
use matrix_identity_admin.Effects.Exec.{World}
use matrix_identity_admin.Effects.Clients.{KeycloakIdentityProvider}
use matrix_identity_admin.AuditQueries.{
  AuditFilter, AuditReader, Condition, build_where_clause, clause_text, clause_holds, conditions,
  selected, satisfies, text_le, end_of_day, take, drop,
}
use matrix_identity_admin.AuditQueries.Ordered.{Descending, DifferentTimes}
use matrix_identity_admin.AuditQueries.Clause.{
  placeholders, matches, build_where_clause-Parametrised, selected-matches,
}
use matrix_identity_admin.Utf8.{utf8, utf8_bytes}
use matrix_identity_admin.PolicyTables.{text_compare}
use matrix_identity_admin.Directory.Users.{identity_provider, get_detail}
use matrix_identity_admin.Directory.Users.Detail.{Answers, get_detail-Answers}
use matrix_identity_admin.Handlers.Session.{AppState, AuthenticatedAdmin, flash}
use matrix_identity_admin.Handlers.Session.Csrf.{Refuses}
use matrix_identity_admin.Handlers.Session.Flash.{Fits, flash-Fits}
use matrix_identity_admin.Handlers.Audit.{
  AuditQuery, audit_row, total_pages_of, filter_of, csv_of, csv_fields, validate_date_format,
  is_date_bytes, validate_optional_filter, non_empty,
}
use matrix_identity_admin.Handlers.Audit.Csv.{read_csv, column_names, read_csv-csv_of}
use matrix_identity_admin.Handlers.Audit.Listing.{first_pages, list-Complete}
use matrix_identity_admin.Handlers.Audit.Dates.{satisfies-day}
use matrix_identity_admin.Handlers.Lifecycle.{
  disable, reactivate, delete, offboard, revoke, force_keycloak_logout, reconcile,
  reconcile_preview,
}
use matrix_identity_admin.Handlers.Refused.{handlers-Refuses}
use matrix_identity_admin.Handlers.Bulk.{bulk_reconcile, reconcile_pages, nothing_done}
use matrix_identity_admin.Handlers.Bulk.Ends.{Counts, reconcile_pages-Counts}
use matrix_identity_admin.Tests.Services.{
  keycloak, mas, synapse, audit, admin, domain, alice, alice_id, bindings, empty_database, world,
}

abbrev entry : Text → Text → AuditLog
entry id timestamp = record {
  id = id;
  timestamp = timestamp;
  admin_subject = [];
  admin_username = 98 ∷ 44 ∷ 34 ∷ [];
  target_keycloak_user_id = none;
  target_matrix_user_id = some (7 ∷ []);
  action = codes "invite_user";
  result = codes "success";
  metadata_json = [];
}

abbrev day : Text
day = 50 ∷ 48 ∷ 50 ∷ 52 ∷ 45 ∷ 48 ∷ 50 ∷ 45 ∷ 50 ∷ 57 ∷ []

abbrev noon : Text
noon = 84 ∷ 49 ∷ 50 ∷ 58 ∷ 48 ∷ 48 ∷ 58 ∷ 48 ∷ 48 ∷ 90 ∷ []

abbrev logs : List AuditLog
logs = entry (1 ∷ []) (day ++ noon) ∷ entry (2 ∷ []) day ∷ []

abbrev logged : Database
logged = record empty_database { audit_logs = logs }

abbrev logged_world : World ℕ
logged_world = record { upstream = 0; db = logged }

abbrev no_filter : AuditFilter
no_filter = record { action = none; result = none; admin_username = none; from = none; to = none }

abbrev of_action : Text → AuditFilter
of_action a = record no_filter { action = some a }

build_where_clause-Parametrised_example :
    ((build_where_clause (of_action (1 ∷ []))).0
      ≡ (build_where_clause (of_action (63 ∷ 39 ∷ []))).0)
    × (placeholders (build_where_clause (of_action (1 ∷ []))).0
        ≡ length (build_where_clause (of_action (1 ∷ []))).1)
build_where_clause-Parametrised_example =
    build_where_clause-Parametrised (of_action (1 ∷ [])) (of_action (63 ∷ 39 ∷ []))
      (refl, refl, refl, refl, refl)

selected-matches_example :
    selected (of_action (1 ∷ [])) logged ≡ keep (matches (of_action (1 ∷ []))) logs
selected-matches_example = selected-matches (of_action (1 ∷ [])) logged

abbrev reader : AuditReader ℕ
reader = record {
  sqlite = record { failure = λ n. (none, n); constraint_failed = 1 ∷ [] };
  arrange = λ u rows. rows;
  unixepoch = λ t. none;
  now = λ n. (0, n);
}

abbrev query : AuditQuery
query = record { page = pos 1; action = none; result = none; admin = none; from = none; to = none }

no_conditions : filter_of query ≡ ok no_filter
unfolding filter_of validate_optional_filter non_empty
no_conditions = refl

all_rows : selected no_filter logged ≡ logs
unfolding selected build_where_clause conditions clause_text clause_holds
all_rows = refl

two_rows :
    (R : AuditLog → AuditLog → Type 0)
    → ((a b : AuditLog) → IsProp (R a b))
    → (a b : AuditLog) → R a b
    → Pairwise R (a ∷ b ∷ [])
two_rows R prop a b r =
    Pairwise.cons
      (λ c m.
        Or.elim (prop a c) (mem-cons.0 m) (λ e. subst (λ t. R a t) (sym e) r)
          (λ n. absurd (not-mem-nil n)))
      (Pairwise.cons (λ c m. absurd (not-mem-nil m)) Pairwise.nil)

noon_first : text_le day (day ++ noon) ≡ true
unfolding text_compare
noon_first = refl

not_same : (day ++ noon) ≢ day
unfolding text_eq
not_same e = ground (arith, ap (text_eq day) e)

newest_first : Descending logs
newest_first =
    two_rows (λ a b. text_le b.timestamp a.timestamp ≡ true) (λ a b. hlevel) _ _ noon_first

apart : DifferentTimes logs
apart = two_rows (λ a b. a.timestamp ≢ b.timestamp) (λ a b. hlevel) _ _ not_same

list-Complete_example :
    (rows : List AuditLog) × Perm rows (selected no_filter logged)
    × Descending rows
    × (first_pages reader query
          (λ n. record { upstream = n; db = logged })
          (total_pages_of (length (selected no_filter logged)))
        ≡ map audit_row rows)
list-Complete_example =
    list-Complete reader query no_filter (λ n. record { upstream = n; db = logged }) logged
      (λ u. refl) (λ n. refl)
      (λ u. (Perm.refl (selected no_filter logged), rw all_rows newest_first)) (rw all_rows apart)
      no_conditions

read_csv-csv_of_example : read_csv (csv_of logs) ≡ column_names ∷ map csv_fields logs
read_csv-csv_of_example = read_csv-csv_of logs (unfold codes in (refl, (refl, tt)))

is_date : validate_date_format day ≡ ok tt
unfolding validate_date_format is_date_bytes utf8 utf8_bytes take drop
is_date = refl

before_midnight : text_le noon (codes "T23:59:59Z") ≡ true
unfolding codes text_compare
before_midnight = refl

satisfies-day_example :
    (satisfies (entry (1 ∷ []) (day ++ noon)) Condition.from_is day ≡ text_le day day)
    × (satisfies (entry (1 ∷ []) (day ++ noon)) Condition.to_is (end_of_day day) ≡ text_le day day)
satisfies-day_example =
    satisfies-day (entry (1 ∷ []) (day ++ noon)) day noon day day refl refl before_midnight is_date
      is_date

flash-Fits_example : Fits (flash (97 ∷ 8230 ∷ []))
flash-Fits_example = flash-Fits (97 ∷ 8230 ∷ []) (omega arith, (omega arith, tt))

abbrev paged : KeycloakIdentityProvider ℕ
paged = record keycloak {
  search_users = λ query max first n. (ok (take max (drop first (alice ∷ alice ∷ []))), n);
}

abbrev pub state : AppState ℕ
state = record {
  keycloak = paged;
  mas = mas;
  synapse = some synapse;
  audit = audit;
  policy_service = record {
    sqlite = record { failure = λ n. (none, n); constraint_failed = 1 ∷ [] };
    new_v4 = λ n. (n ∷ [], n);
    now = λ n. (9 ∷ [], n);
  };
  homeserver_domain = domain;
  bot_api_secret = 115 ∷ [];
  invite_allowed_domains = none;
  ct_eq = text_eq;
}

abbrev pub signed_in : AuthenticatedAdmin
signed_in = record { actor = admin; csrf_token = 65 ∷ 66 ∷ [] }

handlers-Refuses_example :
    Refuses (disable state signed_in alice_id (65 ∷ []))
    × Refuses (reactivate state signed_in alice_id (65 ∷ []))
    × Refuses (delete state signed_in alice_id (65 ∷ []))
    × Refuses (offboard state signed_in alice_id (65 ∷ []))
    × Refuses (reconcile state signed_in alice_id (65 ∷ []))
    × Refuses (reconcile_preview state signed_in alice_id (65 ∷ []))
    × Refuses (bulk_reconcile state signed_in 1 (65 ∷ []))
    × Refuses (revoke state signed_in alice_id (4 ∷ []) (65 ∷ []) (5 ∷ []))
    × Refuses (force_keycloak_logout state signed_in alice_id (65 ∷ []))
handlers-Refuses_example =
    handlers-Refuses state signed_in (65 ∷ []) alice_id (4 ∷ []) (5 ∷ []) 1 (λ a b h. refl) refl
      (unfold text_eq in refl)

reconcile_pages-Counts_example :
    Counts 2 (reconcile_pages state signed_in synapse bindings 1 0 nothing_done world).value
reconcile_pages-Counts_example =
    reconcile_pages-Counts state signed_in synapse bindings (alice ∷ alice ∷ []) 1 world
      (λ first u. refl) (omega arith) (omega arith)

get_detail-Answers_example :
    Answers domain
      ((identity_provider keycloak).get_user alice_id world).value
      (get_detail (identity_provider keycloak) mas domain true alice_id world).value
get_detail-Answers_example =
    get_detail-Answers (identity_provider keycloak) mas domain true alice_id world
