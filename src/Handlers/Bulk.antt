-- ===== src/Handlers/Bulk.antt =====
-- src/handlers/bulk_reconcile.rs: the reconciliation of all users, page by page. The loop is on
-- fuel, one unit for each page; numbers of type u32 wrap around. The counters, which are usize,
-- stay below the number of users that were fetched.
pub mod Ends
use matrix_identity_admin.Prelude.{
  ℕ, zero, suc, ◌+◌, ◌%◌, ◌^◌, List, [], ◌∷◌, ◌++◌, map, Option, none, some, Bool, true, false, not,
  ltb, is_empty, length, if◌then◌else◌,
}
use matrix_identity_admin.Text.{Text, codes, show_nat}
use matrix_identity_admin.Models.Error.{AppError, Result, ok, err, error_text}
use matrix_identity_admin.Models.Accounts.{KeycloakUser, KeycloakGroup, KeycloakRole}
use matrix_identity_admin.Models.Policy.{PolicyBinding}
use matrix_identity_admin.Models.Workflow.{WorkflowOutcome}
use matrix_identity_admin.Effects.Exec.{Exec, pure, try_then, ◌>>=◌}
use matrix_identity_admin.Effects.Clients.{MatrixService}
use matrix_identity_admin.Effects.Clients.Keycloak
use matrix_identity_admin.PolicyService.{list_bindings}
use matrix_identity_admin.Workflows.{subject_of}
use matrix_identity_admin.Reconcile.{reconcile_membership}
use matrix_identity_admin.Handlers.Session.{AppState, AuthenticatedAdmin, validated}
use matrix_identity_admin.Handlers.Lifecycle.{or_not_configured}

abbrev pub max_bulk_reconcile_users : ℕ
max_bulk_reconcile_users = 1000

abbrev pub users_per_page : ℕ
users_per_page = 100

-- What the template is given.
pub record BulkReconcileResult : Type 0 where
  pub users_processed : ℕ
  pub users_skipped : ℕ
  pub warnings : List Text

abbrev pub nothing_done : BulkReconcileResult
nothing_done = record { users_processed = 0; users_skipped = 0; warnings = [] }

abbrev pub skip : BulkReconcileResult → List Text → BulkReconcileResult
skip r ws = record {
  users_processed = r.users_processed;
  users_skipped = r.users_skipped + 1;
  warnings = r.warnings ++ ws;
}

abbrev pub warn : BulkReconcileResult → Text → BulkReconcileResult
warn r w = record {
  users_processed = r.users_processed;
  users_skipped = r.users_skipped;
  warnings = r.warnings ++ w ∷ [];
}

-- `format!("{}: {}", username, ..)`
abbrev pub about : KeycloakUser → Text → Text
about user message = user.username ++ (codes ": " ++ message)

-- What is made of the result of `reconcile_membership`.
unfoldable pub concluded :
    KeycloakUser → BulkReconcileResult → Result WorkflowOutcome → BulkReconcileResult
concluded user r (ok o) = record {
  users_processed = r.users_processed + 1;
  users_skipped = r.users_skipped;
  warnings = r.warnings ++ map (about user) o.warnings;
}
concluded user r (err e) = skip r (about user (codes "reconcile failed — " ++ error_text e) ∷ [])

-- The roles, and a warning if they could not be fetched.
unfoldable pub fetched_roles :
    KeycloakUser
    → BulkReconcileResult
    → Result (List KeycloakRole)
    → List Text × BulkReconcileResult
fetched_roles user r (ok roles) = (map (λ role. role.name) roles, r)
fetched_roles user r (err e) =
    ([], warn r (about user (codes "could not fetch roles — " ++ error_text e)))

module _ {W : Type 0} (state : AppState W) (admin : AuthenticatedAdmin) (synapse : MatrixService W)
    (bindings : List PolicyBinding) where
  unfoldable pub reconcile_in_groups :
      KeycloakUser → BulkReconcileResult → Result (List KeycloakGroup) → Exec W BulkReconcileResult
  reconcile_in_groups user r (err e) =
      pure (skip r (about user (codes "could not fetch groups — " ++ error_text e) ∷ []))
  reconcile_in_groups user r (ok groups) = do
    found ← Keycloak.get_user_roles state.keycloak user.id
    let (roles, so_far) = fetched_roles user r found
    outcome ←
        reconcile_membership state.audit admin.actor synapse
          (subject_of state.homeserver_domain user.id user) bindings (map (λ g. g.name) groups)
          roles
    pure (concluded user so_far outcome)

  unfoldable pub reconcile_enabled : KeycloakUser → BulkReconcileResult → Exec W BulkReconcileResult
  reconcile_enabled user r = do
    groups ← Keycloak.get_user_groups state.keycloak user.id
    reconcile_in_groups user r groups

  -- A disabled user is skipped.
  unfoldable pub reconcile_one : KeycloakUser → BulkReconcileResult → Exec W BulkReconcileResult
  reconcile_one user r = if not user.enabled then pure (skip r []) else reconcile_enabled user r

  -- The users of a page.
  unfoldable pub reconcile_page :
      BulkReconcileResult → List KeycloakUser → Exec W BulkReconcileResult
  reconcile_page r [] = pure r
  reconcile_page r (user ∷ rest) = do done ← reconcile_one user r; reconcile_page done rest

  -- One page, and how the loop goes on.
  unfoldable pub page_done :
      (ℕ → BulkReconcileResult → Exec W (Result (Option BulkReconcileResult)))
      → ℕ
      → BulkReconcileResult
      → List KeycloakUser
      → Exec W (Result (Option BulkReconcileResult))
  page_done continue first r page = if is_empty page then pure (ok (some r)) else do
    done ← reconcile_page r page
    if ltb (length page % 2 ^ 32) users_per_page
        then pure (ok (some done))
        else continue ((first + length page % 2 ^ 32) % 2 ^ 32) done

  -- The loop over the pages, from `first` on; none if the fuel runs out.
  unfoldable pub reconcile_pages :
      ℕ → ℕ → BulkReconcileResult → Exec W (Result (Option BulkReconcileResult))
  reconcile_pages zero first r = pure (ok none)
  reconcile_pages (suc fuel) first r =
      try_then (Keycloak.search_users state.keycloak [] users_per_page first)
        (page_done (λ next done. reconcile_pages fuel next done) first r)

module _ {W : Type 0} (state : AppState W) (admin : AuthenticatedAdmin) where
  unfoldable pub bulk_reconcile : ℕ → Text → Exec W (Result (Option BulkReconcileResult))
  bulk_reconcile fuel csrf = validated state admin csrf (
      or_not_configured state admin λ synapse.
        try_then (Keycloak.count_users state.keycloak []) λ total.
          if ltb max_bulk_reconcile_users total
          then pure (
              err (
                AppError.validation (
                  codes "Bulk reconcile is limited to "
                  ++ (show_nat max_bulk_reconcile_users ++ codes " users per request."))))
          else try_then (list_bindings state.policy_service)
              λ bindings. reconcile_pages state admin synapse bindings fuel 0 nothing_done)
