-- ===== src/Tests/Services.antt =====
-- Services for the tests, over a counter that makes the ids: one user with an open and a closed
-- session, and a MAS that cannot finish sessions.
use matrix_identity_admin.Prelude.{ℕ, List, [], ◌∷◌, Option, none, some, true, suc}
use matrix_identity_admin.Text.{Text, codes}
use matrix_identity_admin.Models.Error.{AppError, ok, err}
use matrix_identity_admin.Models.Accounts.{KeycloakUser, MasUser, MasSession}
use matrix_identity_admin.Models.Policy.{PolicyBinding, PolicySubject, PolicyTarget}
use matrix_identity_admin.Effects.Database.{Database}
use matrix_identity_admin.Effects.Exec.{World}
use matrix_identity_admin.Effects.Clients.{
  KeycloakIdentityProvider, AuthService, MatrixService, Reply,
}
use matrix_identity_admin.AuditService.{AuditService, Actor}
use matrix_identity_admin.Lifecycle.{Subject}

abbrev answer : {A : Type 0} → A → Reply ℕ A
answer a n = (ok a, n)

abbrev refuse : {A : Type 0} → Reply ℕ A
refuse n = (err (AppError.upstream (codes "mas") (codes "503")), n)

abbrev pub alice_id : Text
alice_id = 1 ∷ 7 ∷ []

abbrev pub alice : KeycloakUser
alice = record {
  id = alice_id;
  username = 97 ∷ [];
  email = none;
  first_name = none;
  last_name = none;
  enabled = true;
  email_verified = true;
  created_timestamp = none;
  required_actions = [];
}

abbrev alice_in_mas : MasUser
alice_in_mas = record { id = 2 ∷ []; username = 97 ∷ []; deactivated_at = some (3 ∷ []) }

abbrev session_of : Text → Option Text → MasSession
session_of id finished = record {
  id = id;
  session_type = 5 ∷ [];
  created_at = none;
  last_active_at = none;
  user_agent = none;
  ip_address = none;
  finished_at = finished;
}

abbrev pub keycloak : KeycloakIdentityProvider ℕ
keycloak = record {
  search_users = λ _ _ _. answer (alice ∷ []);
  count_users = λ _. answer 1;
  get_user = λ _. answer alice;
  get_user_by_email = λ _. answer none;
  get_user_groups = λ _. answer [];
  get_user_roles = λ _. answer [];
  logout_user = λ _. answer tt;
  create_user = λ _ _. answer (8 ∷ []);
  send_invite_email = λ _. answer tt;
  delete_user = λ _. answer tt;
  disable_user = λ _. answer tt;
  enable_user = λ _. answer tt;
  list_groups = answer [];
  list_realm_roles = answer [];
  add_user_to_group = λ _ _. answer tt;
  assign_realm_roles = λ _ _. answer tt;
}

abbrev pub mas : AuthService ℕ
mas = record {
  get_user_by_username = λ _. answer (some alice_in_mas);
  list_sessions = λ _. answer (record {
    sessions = session_of (4 ∷ []) none ∷ session_of (5 ∷ []) (some []) ∷ [];
    warnings = [];
  });
  finish_session = λ _ _. refuse;
  deactivate_user = λ _. answer tt;
  reactivate_user = λ _. answer tt;
}

abbrev pub synapse : MatrixService ℕ
synapse = record {
  get_joined_room_members = λ _. answer (alice_id ∷ []);
  force_join_user = λ _ _. answer tt;
  kick_user_from_room = λ _ _ _. answer tt;
  get_space_children = λ _. answer ((30 ∷ []) ∷ []);
  list_rooms = λ _ _. answer (record { rooms = []; next_batch = none; total_rooms = none });
  set_power_level = λ _ _ _. answer tt;
}

abbrev pub audit : AuditService ℕ
audit = record {
  new_v4 = λ n. (n ∷ [], suc n);
  unix_time = λ n. (some 1700000000, n);
  metadata_text = λ _. [];
  write_error = λ _ n. (none, n);
  unique_violation = 0 ∷ [];
}

abbrev pub admin : Actor
admin = record { subject = 6 ∷ []; username = 98 ∷ [] }

abbrev pub domain : Text
domain = 99 ∷ []

abbrev pub user : Subject
user = record { keycloak_id = alice_id; username = 97 ∷ []; matrix_user_id = alice_id }

abbrev pub bindings : List PolicyBinding
bindings =
    record {
      id = 10 ∷ [];
      subject = PolicySubject.group (11 ∷ []);
      target = PolicyTarget.space (20 ∷ []);
      power_level = none;
      allow_remove = true;
      created_at = [];
      updated_at = [];
    }
    ∷ []

abbrev pub empty_database : Database
empty_database = record {
  audit_logs = [];
  policy_bindings = [];
  policy_targets_cache = [];
  policy_bootstrap_state = none;
}

abbrev pub world : World ℕ
world = record { upstream = 0; db = empty_database }
