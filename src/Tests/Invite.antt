-- ===== src/Tests/Invite.antt =====
-- The invitation of ada@m.org with a template that names an unknown group.
use matrix_identity_admin.Prelude.{[], ◌∷◌, none, some, ◌≡◌}
use matrix_identity_admin.Models.Error.{is_ok}
use matrix_identity_admin.Models.Accounts.{OnboardingTemplate}
use matrix_identity_admin.Invite.{invite_user}
use matrix_identity_admin.Invite.Outcome.{invite_user-Ends}
use matrix_identity_admin.Invite.Rules.{sent}
use matrix_identity_admin.Text.{Text}
use matrix_identity_admin.Tests.Services.{keycloak, mas, audit, admin, domain, world}

abbrev template : OnboardingTemplate
template = record { name = []; description = []; groups = (1 ∷ []) ∷ []; roles = [] }

abbrev address : Text
address = 97 ∷ 100 ∷ 97 ∷ 64 ∷ 109 ∷ 46 ∷ 111 ∷ 114 ∷ 103 ∷ []

abbrev unchanged : Text → Text
unchanged t = t

invite_user-Ends_example :
    let r =
      invite_user keycloak mas audit admin domain none
        (some template)
        unchanged
        address
        none
        world in
    is_ok r.value ≡ sent r.events
invite_user-Ends_example =
    invite_user-Ends keycloak mas audit admin domain none (some template) unchanged address none
      world
