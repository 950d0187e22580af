-- ===== src/Models/Workflow.antt =====
-- src/models/workflow.rs: the warnings that a workflow collects.
use mathlib.Core.Bool.{and-true, and-false}
use matrix_identity_admin.Prelude.{
  sym, ◌∙◌, List, [], ◌∷◌, ◌++◌, Bool, false, not, ◌&&◌, ◌≡◌, refl, is_empty, is_empty-append,
}
use matrix_identity_admin.Text.{Text, codes, join}
use matrix_identity_admin.Models.Error.{AppError, Result, ok, err, is_ok}

pub record WorkflowOutcome : Type 0 where
  pub warnings : List Text

abbrev pub no_warnings : WorkflowOutcome
no_warnings = record { warnings = [] }

unfoldable pub add_warning : WorkflowOutcome → Text → WorkflowOutcome
add_warning o msg = record { warnings = o.warnings ++ msg ∷ [] }

-- `outcome.warnings.extend(..)`
unfoldable pub extend : WorkflowOutcome → List Text → WorkflowOutcome
extend o ws = record { warnings = o.warnings ++ ws }

unfoldable pub has_warnings : WorkflowOutcome → Bool
has_warnings o = not (is_empty o.warnings)

unfoldable pub warning_summary : WorkflowOutcome → Text
warning_summary o = join (codes "; ") o.warnings

abbrev pub clean : WorkflowOutcome → Bool
clean o = is_empty o.warnings

pub clean-add_warning : (o : WorkflowOutcome) (msg : Text) → clean (add_warning o msg) ≡ false
unfolding add_warning
clean-add_warning o msg = go o.warnings
  where
    go : (ws : List Text) → is_empty (ws ++ msg ∷ []) ≡ false
    go [] = refl
    go (w ∷ ws) = refl

pub clean-extend :
    (o : WorkflowOutcome) (ws : List Text) → clean (extend o ws) ≡ (clean o && is_empty ws)
unfolding extend
clean-extend o ws = is_empty-append o.warnings ws

-- `if let Err(e) = r { outcome.add_warning(message(e)) }`
unfoldable pub warn_on {ℓ} :
    {A : Type ℓ} → Result A → (AppError → Text) → WorkflowOutcome → WorkflowOutcome
warn_on (ok a) message o = o
warn_on (err e) message o = add_warning o (message e)

pub clean-warn_on {ℓ} :
    {A : Type ℓ} (r : Result A) (message : AppError → Text) (o : WorkflowOutcome)
    → clean (warn_on r message o) ≡ (clean o && is_ok r)
unfolding warn_on
clean-warn_on (ok a) message o = sym (and-true (clean o))
clean-warn_on (err e) message o = clean-add_warning o (message e) ∙ sym (and-false (clean o))

-- A workflow that succeeded and has nothing to report.
abbrev pub spotless : Result WorkflowOutcome → Bool
spotless (ok o) = clean o
spotless (err e) = false
