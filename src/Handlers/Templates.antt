-- ===== src/Handlers/Templates.antt =====
-- src/handlers/templates.rs: the templates of the onboarding, up to the template of the page.
use matrix_identity_admin.Prelude.{
  List, [], ◌∷◌, ◌++◌, map, keep, any, Option, none, some, not, ◌⊎◌, inl, inr, ◌==◌, is_empty,
  if◌then◌else◌,
}
use matrix_identity_admin.Text.{Text, codes, text_eq}
use matrix_identity_admin.InviteEmail.{extend_first}
use matrix_identity_admin.Models.Error.{AppError, Result, Done, ok, err}
use matrix_identity_admin.Models.Accounts.{OnboardingTemplate}
use matrix_identity_admin.Models.Audit.{JsonValue, Metadata, AuditResult}
use matrix_identity_admin.Effects.Exec.{Exec, pure, try_then, ◌>>=◌}
use matrix_identity_admin.AuditService.{log}
use matrix_identity_admin.Onboarding.File.{TemplatesFile, load_templates, save_templates}
use matrix_identity_admin.Handlers.Session.{AppState, AuthenticatedAdmin, validated}

pub record CreateForm : Type 0 where
  pub csrf : Text
  pub name : Text
  pub description : Text
  pub groups : Text
  pub roles : Text

-- `split(',')`
unfoldable pub split_commas : Text → List Text
split_commas [] = [] ∷ []
split_commas (c ∷ cs) =
    let rest = split_commas cs in if c == 44 then [] ∷ rest else extend_first c rest

-- The names of a list that is typed with commas.
unfoldable pub names_of : (Text → Text) → Text → List Text
names_of trim t = keep (λ s. not (is_empty s)) (map trim (split_commas t))

-- `unwrap_or_default()`
abbrev pub or_no_templates : Text ⊎ List OnboardingTemplate → List OnboardingTemplate
or_no_templates (inl e) = []
or_no_templates (inr templates) = templates

-- `map_err(|e| AppError::Internal(..))`
abbrev pub or_internal : Text ⊎ List OnboardingTemplate → Result (List OnboardingTemplate)
or_internal (inl e) = err (AppError.internal e)
or_internal (inr templates) = ok templates

abbrev pub internal_error : Option Text → Done
internal_error none = ok tt
internal_error (some e) = err (AppError.internal e)

module _ {W : Type 0} (state : AppState W) (file : TemplatesFile W)
    (admin : AuthenticatedAdmin) where
  unfoldable pub list : Exec W (List OnboardingTemplate)
  list = do templates ← load_templates file; pure (or_no_templates templates)

  unfoldable pub load : Exec W (Result (List OnboardingTemplate))
  load = do templates ← load_templates file; pure (or_internal templates)

  -- The file is written and the change is logged; then the page is shown again.
  unfoldable pub save_and_log :
      List OnboardingTemplate → Text → Metadata → Text → Exec W (Result Text)
  save_and_log templates action metadata location = do
    failure ← save_templates file templates
    try_then (pure (internal_error failure)) λ _.
        try_then
          (log state.audit admin.actor (record { keycloak_user_id = none; matrix_user_id = none })
            action AuditResult.success metadata)
          λ _. pure (ok location)

  unfoldable pub create_named : CreateForm → Text → List OnboardingTemplate → Exec W (Result Text)
  create_named form name templates =
      let groups = names_of file.trim form.groups in
      let roles = names_of file.trim form.roles in
      if any (λ t. text_eq t.name name) templates
      then pure (ok (codes "/templates?notice=Template+name+already+exists"))
      else save_and_log
          (templates
            ++ record {
              name = name;
              description = form.description;
              groups = groups;
              roles = roles;
            }
              ∷ [])
          (codes "create_onboarding_template")
          ((codes "template_name", JsonValue.string name)
            ∷ (codes "groups", JsonValue.strings groups)
            ∷ (codes "roles", JsonValue.strings roles)
            ∷ [])
          (codes "/templates?notice=Template+created")

  unfoldable pub create : CreateForm → Exec W (Result Text)
  create form =
      let name = file.trim form.name in
      validated state admin form.csrf (
        if is_empty name
        then pure (ok (codes "/templates?notice=Template+name+is+required"))
        else try_then load (create_named form name))

  unfoldable pub delete : Text → Text → Exec W (Result Text)
  delete csrf name = validated state admin csrf (
      try_then load λ templates.
        save_and_log (keep (λ t. not (text_eq t.name name)) templates)
          (codes "delete_onboarding_template") ((codes "template_name", JsonValue.string name) ∷ [])
          (codes "/templates?notice=Template+deleted"))
