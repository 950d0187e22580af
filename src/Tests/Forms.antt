-- ===== src/Tests/Forms.antt =====
-- The forms of the policy page and of the templates, and the invitation by the bot, at requests
-- whose token or secret is wrong, and the fragments at names with markup in them.
use matrix_identity_admin.Prelude.{ℕ, List, [], ◌∷◌, ◌++◌, none, some, true, false, inr, ◌≡◌, refl}
use matrix_identity_admin.Text.{Text, codes, text_eq}
use matrix_identity_admin.Utf8.{utf8, utf8_bytes}
use matrix_identity_admin.Models.Error.{AppError, ok, error_text}
use matrix_identity_admin.Models.Accounts.{KeycloakGroup, KeycloakRole}
use matrix_identity_admin.Models.Policy.{CachedRoom}
use matrix_identity_admin.Onboarding.File.{TemplatesFile}
use matrix_identity_admin.Handlers.Session.Csrf.{Refuses}
use matrix_identity_admin.Handlers.Policy
use matrix_identity_admin.Handlers.Policy.{
  CreateBindingForm, UpdateBindingForm, rooms_html, groups_html, roles_html,
}
use matrix_identity_admin.Handlers.Policy.Options.{Markup, options-Markup}
use matrix_identity_admin.Handlers.Templates
use matrix_identity_admin.Handlers.Templates.{CreateForm}
use matrix_identity_admin.Handlers.Refused.{forms-Refuses}
use matrix_identity_admin.Handlers.Invite.{InviteRequest, create_invite}
use matrix_identity_admin.Handlers.Invite.Bearer.{create_invite-Refuses}
use matrix_identity_admin.Tests.Services.{world}
use matrix_identity_admin.Tests.Web.{state, signed_in}

abbrev file : TemplatesFile ℕ
file = record {
  exists = λ n. (true, n);
  read_to_string = λ n. (inr [], n);
  write = λ t n. (none, n);
  trim = λ t. t;
  from_str = λ t. inr [];
  to_string_pretty = λ ts. inr [];
}

abbrev wrong : Text
wrong = 65 ∷ []

abbrev created : CreateBindingForm
created = record {
  csrf = wrong;
  subject_type = [];
  subject_value = [];
  target_type = [];
  target_room_id = [];
  power_level = none;
  allow_remove = none;
}

abbrev updated : UpdateBindingForm
updated = record { csrf = wrong; power_level = none; allow_remove = none }

abbrev template : CreateForm
template = record { csrf = wrong; name = 1 ∷ []; description = []; groups = []; roles = [] }

differs : text_eq (65 ∷ 66 ∷ []) wrong ≡ false
unfolding text_eq
differs = refl

forms-Refuses_example :
    Refuses (Policy.create state (λ t. t) signed_in created)
    × Refuses (Policy.update state (λ t. t) signed_in (1 ∷ []) updated)
    × Refuses (Policy.delete state (λ t. t) signed_in (1 ∷ []) wrong)
    × Refuses (Policy.refresh_rooms state (λ t. t) signed_in 1 wrong)
    × Refuses (Templates.create state file signed_in template)
    × Refuses (Templates.delete state file signed_in wrong (1 ∷ []))
forms-Refuses_example =
    forms-Refuses state signed_in file (λ t. t) created updated template wrong (1 ∷ []) 1
      (λ a b h. refl) refl differs differs differs differs

abbrev request : InviteRequest
request = record { email = 97 ∷ []; invited_by = []; template = none }

no_secret : text_eq (utf8 []) (utf8 (codes "Bearer " ++ 115 ∷ [])) ≡ false
unfolding text_eq utf8 utf8_bytes codes
no_secret = refl

create_invite-Refuses_example : create_invite state file (λ t. t) none request world ≡ record {
  value = record {
    status = 401;
    is_invited = false;
    message = error_text (AppError.auth (codes "Invalid bot API secret"));
  };
  world = world;
  events = [];
}
create_invite-Refuses_example =
    create_invite-Refuses state file (λ t. t) none request world (λ a b h. refl) no_secret

abbrev hostile : Text
hostile = 60 ∷ 47 ∷ 34 ∷ 62 ∷ 38 ∷ 39 ∷ []

abbrev rooms : List CachedRoom
rooms =
    record {
      room_id = hostile;
      name = some hostile;
      canonical_alias = none;
      parent_space_id = none;
      is_space = true;
      last_seen_at = [];
    }
    ∷ []

abbrev groups : List KeycloakGroup
groups = record { id = []; name = hostile; path = [] } ∷ []

abbrev roles : List KeycloakRole
roles =
    record { id = []; name = hostile; composite = false; client_role = false; container_id = none }
    ∷ []

options-Markup_example :
    Markup 2 (rooms_html rooms)
    × Markup 2 (groups_html (ok groups))
    × Markup 2 (roles_html (ok roles))
options-Markup_example = options-Markup rooms groups roles
