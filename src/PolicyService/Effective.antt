-- ===== src/PolicyService/Effective.antt =====
-- src/services/policy_service.rs: the bindings that apply to a user.
use matrix_identity_admin.Prelude.{List, [], ◌∷◌, ◌||◌, any, keep, keep_cong, ◌≡◌, refl, ap}
use matrix_identity_admin.Text.{Text, text_eq, contains}
use matrix_identity_admin.Models.Policy.{PolicySubject, PolicyBinding}
use matrix_identity_admin.Reconcile.{user_matches_binding, matches_subject}
use matrix_identity_admin.PolicyService.{applies, effective_bindings_for_user}

contains-any : (ss : List Text) (t : Text) → any (λ s. text_eq s t) ss ≡ contains ss t
unfolding contains
contains-any [] t = refl
contains-any (s ∷ ss) t = ap (λ b. text_eq s t || b) (contains-any ss t)

applies_matches :
    (groups roles : List Text) (s : PolicySubject)
    → applies groups roles s ≡ matches_subject s groups roles
unfolding applies matches_subject
applies_matches groups roles (PolicySubject.group g) = contains-any groups g
applies_matches groups roles (PolicySubject.role r) = contains-any roles r

-- `effective_bindings_for_user` selects, in their order, exactly the bindings for which the test
-- that `reconcile_membership` makes, `user_matches_binding`, holds.
pub effective_bindings_for_user_lem :
    (bindings : List PolicyBinding) (groups roles : List Text)
    → effective_bindings_for_user bindings groups roles
      ≡ keep (λ b. user_matches_binding b groups roles) bindings
unfolding effective_bindings_for_user user_matches_binding
effective_bindings_for_user_lem bindings groups roles =
    keep_cong _ _ (λ b. applies_matches groups roles b.subject) bindings
