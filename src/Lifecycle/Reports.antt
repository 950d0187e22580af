-- ===== src/Lifecycle/Reports.antt =====
-- src/services/lifecycle_steps.rs: what a result tells of the failures in a step.
use matrix_identity_admin.Prelude.{
  List, [], ◌∷◌, Option, none, some, Bool, true, false, ◌&&◌, ◌≡◌, refl, sym, arith,
}
use matrix_identity_admin.Text.{Text}
use matrix_identity_admin.Models.Error.{AppError, Result, Done, ok, err, is_ok}
use matrix_identity_admin.Models.Workflow.{
  WorkflowOutcome, no_warnings, warn_on, clean, clean-add_warning, clean-extend, clean-warn_on,
}
use matrix_identity_admin.Models.Audit.{Metadata}
use matrix_identity_admin.Models.Accounts.{MasUser, MasSession, SessionListResult}
use matrix_identity_admin.Effects.Event.{Op}
use matrix_identity_admin.Effects.Exec.{Exec, call, pure, or_return, ◌>>=◌}
use matrix_identity_admin.Effects.Clients.{KeycloakIdentityProvider, AuthService, is_complete}
use matrix_identity_admin.Effects.Reports.{
  Reports, Reports-pure, Reports-from, Reports-call_if, Reports-bind, Reports-or_return,
}
use matrix_identity_admin.AuditService.{AuditService, Actor, log, insert}
use matrix_identity_admin.Lifecycle.{
  Subject, log_result, audit_failed, not_revoked, revoke_each, revoke_listed, revoke_found,
  revoke_auth_sessions, force_identity_logout, disable_identity_account, enable_identity_account,
  deactivate_auth_account, reactivate_auth_account,
}

pub two_warnings :
    {A B : Type 0} (r : Result A) (l : Result B) (f g : AppError → Text) (o : WorkflowOutcome)
    → (clean o && is_ok r && is_ok l) ≡ clean (warn_on r f (warn_on l g o))
two_warnings r l f g o = ground (arith, clean-warn_on r f (warn_on l g o), clean-warn_on l g o)

module _ {W : Type 0} (audit : AuditService W) (who : Actor) (user : Subject) where
  log_result-Reports :
      (before : Bool) (action : Text) (good : Bool) (metadata : Metadata)
      → Reports (λ l. before && is_ok l) before (log_result audit who user action good metadata)
  unfolding log_result log insert ◌>>=◌
  log_result-Reports before action good metadata = record { at = λ w. ground arith }

  pub logged-Reports :
      (A B : Type 0) (good : B → Bool) (before : Bool) (op : Op) (f : W → Result A × W)
      (action : Text) (metadata : Metadata) (k : Result A → Done → Exec W B)
      → ((r : Result A) (l : Done) → Reports good (before && is_ok r && is_ok l) (k r l))
      → Reports good before
          (call op f >>= λ r. log_result audit who user action (is_ok r) metadata >>= k r)
  logged-Reports A B good before op f action metadata k hk =
      Reports-bind (λ r. before && is_ok r) good before (call op f) _
        (Reports-call_if before op is_ok f)
        λ r.
          Reports-bind (λ l. before && is_ok r && is_ok l) good (before && is_ok r) _ _
            (log_result-Reports (before && is_ok r) action (is_ok r) metadata) (hk r)

  module _ (mas : AuthService W) where
    revoke_each-Reports :
        (action : Text) (o : WorkflowOutcome) (sessions : List MasSession)
        → Reports clean (clean o) (revoke_each audit who mas user action o sessions)
    unfolding revoke_each
    revoke_each-Reports action o [] = Reports-pure clean (clean o) o refl
    revoke_each-Reports action o (s ∷ rest) =
        logged-Reports _ _ clean (clean o) (Op.finish_session s.id s.session_type) _ _ _ _ λ r l.
          Reports-from clean _ _ _ (sym (two_warnings r l (not_revoked s) audit_failed o))
            (revoke_each-Reports action (warn_on r (not_revoked s) (warn_on l audit_failed o)) rest)

    revoke_listed-Reports :
        (context : Text) (r : Result SessionListResult)
        → Reports clean (is_complete r) (revoke_listed audit who mas context user r)
    unfolding revoke_listed
    revoke_listed-Reports context (err e) =
        Reports-pure clean false _ (clean-add_warning no_warnings _)
    revoke_listed-Reports context (ok l) =
        Reports-from clean _ _ _ (clean-extend no_warnings l.warnings) (revoke_each-Reports _ _ _)

    revoke_found-Reports :
        (context : Text) (r : Result (Option MasUser))
        → Reports clean (is_ok r) (revoke_found audit who mas context user r)
    unfolding revoke_found
    revoke_found-Reports context (err e) =
        Reports-pure clean false _ (clean-add_warning no_warnings _)
    revoke_found-Reports context (ok none) = Reports-pure clean true _ refl
    revoke_found-Reports context (ok (some u)) =
        Reports-bind is_complete clean true _ _
          (Reports-call_if true (Op.list_sessions u.id) is_complete _)
          (revoke_listed-Reports context)

    -- The warnings of `revoke_auth_sessions` are empty exactly when the user lookup succeeded, the
    -- session list was complete, and each active session and its audit entry went through.
    pub revoke_auth_sessions-Reports :
        (context : Text) → Reports clean true (revoke_auth_sessions audit who mas context user)
    unfolding revoke_auth_sessions
    revoke_auth_sessions-Reports context =
        Reports-bind is_ok clean true _ _
          (Reports-call_if true (Op.get_user_by_username user.username) is_ok _)
          (revoke_found-Reports context)

  pub force_identity_logout-Reports :
      (kc : KeycloakIdentityProvider W) (context : Text)
      → Reports clean true (force_identity_logout audit who kc context user)
  unfolding force_identity_logout
  force_identity_logout-Reports kc context =
      logged-Reports _ _ clean true (Op.logout_user user.keycloak_id) _ _ _ _ λ r l.
        Reports-pure clean (is_ok r && is_ok l) _
          (sym (two_warnings r l _ audit_failed no_warnings))

  -- What the fatal steps have in common: the log, and then the result of the call.
  after_log-Reports :
      (r l : Done) → Reports is_ok (is_ok r && is_ok l) (or_return {W = W} (λ _. pure r) l)
  after_log-Reports r l =
      Reports-or_return is_ok (is_ok r) (λ _. pure r) l (λ _. Reports-pure is_ok (is_ok r) r refl)
        (λ e. refl)

  pub disable_identity_account-Reports :
      (kc : KeycloakIdentityProvider W) (context : Text)
      → Reports is_ok true (disable_identity_account audit who kc context user)
  unfolding disable_identity_account
  disable_identity_account-Reports kc context =
      logged-Reports _ _ is_ok true (Op.disable_user user.keycloak_id) _ _ _ _ after_log-Reports

  pub enable_identity_account-Reports :
      (kc : KeycloakIdentityProvider W) (context : Text)
      → Reports is_ok true (enable_identity_account audit who kc context user)
  unfolding enable_identity_account
  enable_identity_account-Reports kc context =
      logged-Reports _ _ is_ok true (Op.enable_user user.keycloak_id) _ _ _ _ after_log-Reports

  pub deactivate_auth_account-Reports :
      (mas : AuthService W) (context auth_user_id : Text)
      → Reports is_ok true (deactivate_auth_account audit who mas context user auth_user_id)
  unfolding deactivate_auth_account
  deactivate_auth_account-Reports mas context auth_user_id =
      logged-Reports _ _ is_ok true (Op.deactivate_user auth_user_id) _ _ _ _ after_log-Reports

  pub reactivate_auth_account-Reports :
      (mas : AuthService W) (context auth_user_id : Text)
      → Reports clean true (reactivate_auth_account audit who mas context user auth_user_id)
  unfolding reactivate_auth_account
  reactivate_auth_account-Reports mas context auth_user_id =
      logged-Reports _ _ clean true (Op.reactivate_user auth_user_id) _ _ _ _ λ r l.
        Reports-pure clean (is_ok r && is_ok l) _
          (sym (two_warnings r l _ audit_failed no_warnings))
