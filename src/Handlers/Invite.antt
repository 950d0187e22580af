-- ===== src/Handlers/Invite.antt =====
-- src/handlers/invite.rs: the invitation by the bot and by an administrator. A header
-- that is no visible text counts as missing.
pub mod Bearer
use matrix_identity_admin.Prelude.{
  ℕ, ◌+◌, ◌/◌, ◌%◌, List, [], ◌∷◌, ◌++◌, Option, none, some, Bool, true, false, not, ◌||◌, ◌==◌,
  ◌⊎◌, inl, inr, is_empty, length, if◌then◌else◌,
}
use matrix_identity_admin.Text.{Text, codes, text_eq}
use matrix_identity_admin.Utf8.{utf8}
use matrix_identity_admin.PctEncode.{is_unreserved, hex_digit}
use matrix_identity_admin.Models.Error.{AppError, Result, ok, err, error_text}
use matrix_identity_admin.Models.Accounts.{OnboardingTemplate}
use matrix_identity_admin.Effects.Exec.{Exec, pure, ask, or_return, try_then, ◌>>=◌}
use matrix_identity_admin.AuditService.{Actor}
use matrix_identity_admin.Invite.{invite_user}
use matrix_identity_admin.Onboarding.File.{TemplatesFile, load_templates}
use matrix_identity_admin.Handlers.Session.{
  AppState, AuthenticatedAdmin, validate, constant_time_eq,
}
use matrix_identity_admin.Handlers.Audit.{unwrap_or_default}

-- `iter().find(|t| t.name == name)`
unfoldable pub find_template : Text → List OnboardingTemplate → Option OnboardingTemplate
find_template name [] = none
find_template name (t ∷ ts) =
    let rest = find_template name ts in if text_eq t.name name then some t else rest

-- A name that is given and not empty.
unfoldable pub requested : Option Text → Option Text
requested none = none
requested (some name) = if is_empty name then none else some name

-- The answer to a name: the template, or the error that `unknown` makes of it.
unfoldable pub found_or : AppError → Option OnboardingTemplate → Result (Option OnboardingTemplate)
found_or unknown none = err unknown
found_or unknown (some t) = ok (some t)

unfoldable pub loaded :
    Text
    → AppError
    → (Text → AppError)
    → Text ⊎ List OnboardingTemplate
    → Result (Option OnboardingTemplate)
loaded name unknown failed (inl e) = err (failed e)
loaded name unknown failed (inr templates) = found_or unknown (find_template name templates)

unfoldable pub find_requested :
    {W : Type 0}
    → TemplatesFile W
    → Option Text
    → (Text → AppError)
    → Exec W (Result (Option OnboardingTemplate))
find_requested file none unknown = pure (ok none)
find_requested file (some name) unknown = do
  templates ← load_templates file
  pure (loaded name (unknown name) AppError.internal templates)

pub record InviteRequest : Type 0 where
  pub email : Text
  pub invited_by : Text
  pub template : Option Text

abbrev bot : Actor
bot = record { subject = codes "bot-api"; username = codes "bot-api" }

abbrev pub invalid_secret : AppError
invalid_secret = AppError.auth (codes "Invalid bot API secret")

-- The status and the JSON body of a response.
pub record InviteResponse : Type 0 where
  pub status : ℕ
  pub is_invited : Bool
  pub message : Text

abbrev pub failed_with : ℕ → Text → InviteResponse
failed_with status message = record { status = status; is_invited = false; message = message }

unfoldable pub invite_response : Result Text → InviteResponse
invite_response (ok message) = record { status = 201; is_invited = true; message = message }
invite_response (err (AppError.auth m)) = failed_with 401 (error_text (AppError.auth m))
invite_response (err (AppError.validation m)) = failed_with 422 m
invite_response (err (AppError.upstream service message)) =
    failed_with 502 (codes "Upstream error (" ++ (service ++ (codes "): " ++ message)))
invite_response (err (AppError.not_found m)) = failed_with 500 (codes "Internal error")
invite_response (err (AppError.database m)) = failed_with 500 (codes "Internal error")
invite_response (err (AppError.internal m)) = failed_with 500 (codes "Internal error")

-- `pct_encode` of this file, a copy of the one in src/utils.rs.
unfoldable pub invite_pct_byte : ℕ → Text
invite_pct_byte b =
    if is_unreserved b || b == 32
    then (if b == 32 then 43 ∷ [] else b ∷ [])
    else 37 ∷ hex_digit (b / 16) ∷ hex_digit (b % 16) ∷ []

unfoldable pub invite_pct_encode : List ℕ → Text
invite_pct_encode [] = []
invite_pct_encode (b ∷ bs) = invite_pct_byte b ++ invite_pct_encode bs

abbrev pub home_error : Text → Text
home_error message = codes "/?error=" ++ invite_pct_encode (utf8 message)

unfoldable pub secret_matches : (List ℕ → List ℕ → Bool) → Text → Option Text → Bool
secret_matches ct_eq secret header =
    constant_time_eq ct_eq (utf8 (unwrap_or_default header)) (utf8 (codes "Bearer " ++ secret))

module _ {W : Type 0} (state : AppState W) (file : TemplatesFile W) (normalise : Text → Text) where
  unfoldable pub handle_invite : Option Text → InviteRequest → Exec W (Result Text)
  handle_invite header body =
      if not (secret_matches state.ct_eq state.bot_api_secret header)
      then pure (err invalid_secret)
      else try_then
          (find_requested file (requested body.template)
            (λ name. AppError.validation (codes "Unknown template: " ++ name)))
          λ template.
            invite_user state.keycloak state.mas state.audit bot state.homeserver_domain
              (some body.invited_by) template normalise body.email state.invite_allowed_domains

  unfoldable pub create_invite : Option Text → InviteRequest → Exec W InviteResponse
  create_invite header body = do result ← handle_invite header body; pure (invite_response result)

  -- What the template of the form is: of a failed load, the text of the error.
  unfoldable pub form_template :
      Text → Text ⊎ List OnboardingTemplate → Text ⊎ Option OnboardingTemplate
  form_template name (inl e) = inl e
  form_template name (inr templates) = elim (find_template name templates) [
    | none ↦ inl (codes "Unknown onboarding template")
    | some t ↦ inr (some t)
  ]

  unfoldable pub find_form_template : Option Text → Exec W (Text ⊎ Option OnboardingTemplate)
  find_form_template none = pure (inr none)
  find_form_template (some name) = do
    templates ← load_templates file
    pure (form_template name templates)

  unfoldable pub invite_redirect : Result Text → Text
  invite_redirect (ok email) =
      codes "/?notice=" ++ invite_pct_encode (utf8 (codes "Invite sent to " ++ email))
  invite_redirect (err e) = home_error (error_text e)

  unfoldable pub invite_with : Actor → Text → Text ⊎ Option OnboardingTemplate → Exec W Text
  invite_with who email (inl message) = pure (home_error message)
  invite_with who email (inr template) = do
    result ←
        invite_user state.keycloak state.mas state.audit who state.homeserver_domain none template
          normalise email state.invite_allowed_domains
    pure (invite_redirect result)

  unfoldable pub invite_validated : Actor → Text → Option Text → Result (Unit {0}) → Exec W Text
  invite_validated who email template (err e) = pure (home_error (error_text e))
  invite_validated who email template (ok _) = do
    found ← find_form_template (requested template)
    invite_with who email found

  -- The fields of the form: the address, the token, and the name of a template.
  unfoldable pub admin_invite : AuthenticatedAdmin → Text → Text → Option Text → Exec W Text
  admin_invite admin email csrf template =
      invite_validated admin.actor email template (validate state.ct_eq admin.csrf_token csrf)
