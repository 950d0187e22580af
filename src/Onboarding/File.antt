-- ===== src/Onboarding/File.antt =====
-- src/models/onboarding_template.rs: the file of the templates. The file system, serde and `trim`
-- are parameters.
use matrix_identity_admin.Prelude.{
  List, [], ◌++◌, Option, none, some, Bool, not, ◌⊎◌, inl, inr, is_empty, if◌then◌else◌,
}
use matrix_identity_admin.Text.{Text, codes}
use matrix_identity_admin.Models.Accounts.{OnboardingTemplate}
use matrix_identity_admin.Effects.Exec.{Exec, pure, ask, ◌>>=◌}

-- The file of the templates: whether it exists, its contents or an error, and the write.
pub record TemplatesFile (W : Type 0) : Type 0 where
  pub exists : W → Bool × W
  pub read_to_string : W → (Text ⊎ Text) × W
  pub write : Text → W → Option Text × W
  pub trim : Text → Text
  pub from_str : Text → Text ⊎ List OnboardingTemplate
  pub to_string_pretty : List OnboardingTemplate → Text ⊎ Text

module _ {W : Type 0} (file : TemplatesFile W) where
  unfoldable pub parsed : Text ⊎ List OnboardingTemplate → Text ⊎ List OnboardingTemplate
  parsed (inl e) = inl (codes "Failed to parse templates file: " ++ e)
  parsed (inr templates) = inr templates

  unfoldable pub contents_of : Text ⊎ Text → Text ⊎ List OnboardingTemplate
  contents_of (inl e) = inl (codes "Failed to read templates file: " ++ e)
  contents_of (inr contents) =
      if is_empty (file.trim contents) then inr [] else parsed (file.from_str contents)

  unfoldable pub load_templates : Exec W (Text ⊎ List OnboardingTemplate)
  load_templates = do
    exists ← ask file.exists
    if not exists
        then pure (inr [])
        else do contents ← ask file.read_to_string; pure (contents_of contents)

  unfoldable pub write_failed : Option Text → Option Text
  write_failed none = none
  write_failed (some e) = some (codes "Failed to write templates file: " ++ e)

  unfoldable pub write_serialized : Text ⊎ Text → Exec W (Option Text)
  write_serialized (inl e) = pure (some (codes "Failed to serialize templates: " ++ e))
  write_serialized (inr json) = do failure ← ask (file.write json); pure (write_failed failure)

  -- The error, if there is one.
  unfoldable pub save_templates : List OnboardingTemplate → Exec W (Option Text)
  save_templates templates = write_serialized (file.to_string_pretty templates)
