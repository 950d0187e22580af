-- ===== src/Directory/Users/Detail.antt =====
-- src/services/user_service.rs: when the detail view answers, and what it shows.
use matrix_identity_admin.Prelude.{List, Option, Bool, true, ◌||◌, ◌≡◌, refl, arith}
use matrix_identity_admin.Text.{Text}
use matrix_identity_admin.Models.Error.{Result, ok, err}
use matrix_identity_admin.Models.Accounts.{CanonicalUser}
use matrix_identity_admin.Effects.Exec.{World, ◌>>=◌, or_return}
use matrix_identity_admin.Effects.Clients.{AuthService}
use matrix_identity_admin.Directory.{derive_lifecycle_state, derive_matrix_id}
use matrix_identity_admin.Directory.Identity.{is_disabled}
use matrix_identity_admin.Directory.Users.{
  IdentityProvider, UnifiedUserDetail, with_names, detail_of, detail_for, get_detail,
}

-- What the view shows of the user that the identity provider answered with.
abbrev pub Shows : Text → CanonicalUser → Result UnifiedUserDetail → Type 0
Shows domain u (err e) = ⊥
Shows domain u (ok d) =
    (d.keycloak_id ≡ u.id)
    × (d.username ≡ u.username)
    × (d.enabled ≡ u.enabled)
    × (d.matrix_id ≡ derive_matrix_id domain u.username)
    × ((u.enabled || is_disabled d.lifecycle_state) ≡ true)

abbrev pub Answers : Text → Result CanonicalUser → Result UnifiedUserDetail → Type 0
Answers domain (ok u) r = Shows domain u r
Answers domain (err e) r = r ≡ err e

disabled_shown :
    (enabled : Bool) (actions : List Text) (d : Option Text)
    → (enabled || is_disabled (derive_lifecycle_state enabled actions d)) ≡ true
unfolding derive_lifecycle_state
disabled_shown enabled actions d = ground arith

module _ {W : Type 0} (idp : IdentityProvider W) (mas : AuthService W) (domain : Text)
    (order : Bool) where
  detail_for-Shows :
      (id : Text) (u : CanonicalUser) (w : World W)
      → Shows domain u (detail_for idp mas domain order id u w).value
  unfolding detail_for detail_of with_names ◌>>=◌
  detail_for-Shows id u w = (refl, refl, refl, refl, disabled_shown u.enabled u.required_actions _)

  or_return-Answers :
      (id : Text) (r : Result CanonicalUser) (w : World W)
      → Answers domain r (or_return (detail_for idp mas domain order id) r w).value
  unfolding or_return
  or_return-Answers id (ok u) w = detail_for-Shows id u w
  or_return-Answers id (err e) w = refl

  -- In whichever order the groups and the roles are read, the detail view answers whenever the
  -- identity provider finds the user, whatever the reads of groups and roles, MAS and its session
  -- list answer: with the id, the username and the enabled flag of the user and the Matrix id that
  -- its username gives, and as disabled if the account is not enabled. If the provider answers
  -- with an error, then the view answers with that error.
  pub get_detail-Answers :
      (id : Text) (w : World W)
      → Answers domain (idp.get_user id w).value (get_detail idp mas domain order id w).value
  unfolding get_detail ◌>>=◌
  get_detail-Answers id w = or_return-Answers id (idp.get_user id w).value (idp.get_user id w).world
