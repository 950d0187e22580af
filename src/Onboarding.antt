-- ===== src/Onboarding.antt =====
-- The onboarding template of an invitation, src/services/invite_user.rs:87-137: groups and roles,
-- whose failures are not fatal.
pub mod File
use matrix_identity_admin.Prelude.{
  List, [], ◌∷◌, ◌++◌, Option, none, some, Bool, true, false, not, any, map, keep, if◌then◌else◌,
}
use matrix_identity_admin.Text.{Text, text_eq}
use matrix_identity_admin.Models.Error.{Result, ok, err, is_ok}
use matrix_identity_admin.Models.Accounts.{KeycloakGroup, KeycloakRole, OnboardingTemplate}
use matrix_identity_admin.Effects.Exec.{Exec, pure, ◌>>=◌}
use matrix_identity_admin.Effects.Clients.{KeycloakIdentityProvider}
use matrix_identity_admin.Effects.Clients.Keycloak

-- What became of the groups and roles of the template.
pub record Assignment : Type 0 where
  pub assigned_groups : List Text
  pub failed_groups : List Text
  pub assigned_roles : List Text
  pub failed_roles : List Text

abbrev pub nothing_assigned : Assignment
nothing_assigned = record {
  assigned_groups = [];
  failed_groups = [];
  assigned_roles = [];
  failed_roles = [];
}

unfoldable pub find_group : List KeycloakGroup → Text → Option KeycloakGroup
find_group [] name = none
find_group (g ∷ gs) name =
    let rest = find_group gs name in if text_eq g.name name then some g else rest

unfoldable pub find_role : List KeycloakRole → Text → Option KeycloakRole
find_role [] name = none
find_role (r ∷ rs) name =
    let rest = find_role rs name in if text_eq r.name name then some r else rest

unfoldable pub matched_roles : List KeycloakRole → List Text → List KeycloakRole
matched_roles all_roles [] = []
matched_roles all_roles (name ∷ names) =
    let rest = matched_roles all_roles names in
    elim (find_role all_roles name) [ none ↦ rest | some r ↦ r ∷ rest ]

unfoldable pub unknown_roles : List KeycloakRole → List Text → List Text
unknown_roles all_roles names = keep (λ name. not (any (λ r. text_eq r.name name) all_roles)) names

-- `unwrap_or_default()`
abbrev pub or_default : {A : Type 0} → Result (List A) → List A
or_default (ok xs) = xs
or_default (err e) = []

unfoldable pub group_result : Text → Bool → Assignment → Assignment
group_result name true a = record a { assigned_groups = a.assigned_groups ++ name ∷ [] }
group_result name false a = record a { failed_groups = a.failed_groups ++ name ∷ [] }

unfoldable pub role_result : List Text → Bool → Assignment → Assignment
role_result names true a = record a { assigned_roles = a.assigned_roles ++ names }
role_result names false a = record a { failed_roles = a.failed_roles ++ names }

module _ {W : Type 0} (kc : KeycloakIdentityProvider W) where
  unfoldable pub assign_group : Text → Text → Assignment → Option KeycloakGroup → Exec W Assignment
  assign_group user_id name a none = pure (group_result name false a)
  assign_group user_id name a (some g) = do
    result ← Keycloak.add_user_to_group kc user_id g.id
    pure (group_result name (is_ok result) a)

  unfoldable pub assign_groups :
      Text → List KeycloakGroup → Assignment → List Text → Exec W Assignment
  assign_groups user_id all_groups a [] = pure a
  assign_groups user_id all_groups a (name ∷ names) = do
    more ← assign_group user_id name a (find_group all_groups name)
    assign_groups user_id all_groups more names

  unfoldable pub apply_groups : Text → List Text → Assignment → Exec W Assignment
  apply_groups user_id [] a = pure a
  apply_groups user_id (name ∷ names) a = do
    all_groups ← Keycloak.list_groups kc
    assign_groups user_id (or_default all_groups) a (name ∷ names)

  unfoldable pub assign_matched : Text → List KeycloakRole → Assignment → Exec W Assignment
  assign_matched user_id [] a = pure a
  assign_matched user_id (r ∷ rs) a = do
    result ← Keycloak.assign_realm_roles kc user_id (r ∷ rs)
    pure (role_result (map (λ r. r.name) (r ∷ rs)) (is_ok result) a)

  unfoldable pub apply_roles : Text → List Text → Assignment → Exec W Assignment
  apply_roles user_id [] a = pure a
  apply_roles user_id (name ∷ names) a = do
    answer ← Keycloak.list_realm_roles kc
    let all_roles = or_default answer
    assign_matched user_id (matched_roles all_roles (name ∷ names))
        (role_result (unknown_roles all_roles (name ∷ names)) false a)

  unfoldable pub apply_template : Text → Option OnboardingTemplate → Exec W Assignment
  apply_template user_id none = pure nothing_assigned
  apply_template user_id (some template) = do
    grouped ← apply_groups user_id template.groups nothing_assigned
    apply_roles user_id template.roles grouped
