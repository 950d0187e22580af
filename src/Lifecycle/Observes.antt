-- ===== src/Lifecycle/Observes.antt =====
-- What a property of runs has to satisfy to hold of every lifecycle step: it holds of the calls
-- that are not logged, and of a change followed by its log. `allowed` says which changes.
use matrix_identity_admin.Prelude.{Bool, true, ◌≡◌}
use matrix_identity_admin.Text.{Text}
use matrix_identity_admin.Models.Error.{Result, Done, is_ok}
use matrix_identity_admin.Models.Audit.{Metadata}
use matrix_identity_admin.Effects.Event.{Op, Kind, kind, is_audited, is_plain}
use matrix_identity_admin.Effects.Exec.{Exec, call, call_if, ◌>>=◌}
use matrix_identity_admin.Effects.Rules.{Trace, Holds}
use matrix_identity_admin.AuditService.{AuditService, Actor}
use matrix_identity_admin.Lifecycle.{Subject, log_result}

pub record Observes {W : Type 0} (T : Trace W) (audit : AuditService W) (who : Actor)
    (user : Subject) (allowed : Kind → Bool) : Type 1 where
  pub plain :
      (A : Type 0) (op : Op) (good : A → Bool) (f : W → A × W)
      → is_plain (kind op) ≡ true
      → allowed (kind op) ≡ true
      → Holds T (call_if op good f)
  pub logged :
      (A B : Type 0) (op : Op) (f : W → Result A × W) (action : Text) (metadata : Metadata)
      (k : Result A → Done → Exec W B)
      → is_audited (kind op) ≡ true
      → allowed (kind op) ≡ true
      → ((r : Result A) (l : Done) → Holds T (k r l))
      → Holds T (call op f >>= λ r. log_result audit who user action (is_ok r) metadata >>= k r)
