-- ===== src/Reconcile/Targets.antt =====
-- The rooms that the bindings of a reconciliation act on, none of them twice.
use matrix_identity_admin.Prelude.{
  List, [], ◌∷◌, ◌++◌, Bool, true, false, not, ◌&&◌, ◌||◌, ◌≡◌, refl, ap, arith, Bool-cases, inl,
  inr,
}
use matrix_identity_admin.Text.{Text, contains, text_eq, text_eq_sound}
use matrix_identity_admin.Models.Error.{Result}
use matrix_identity_admin.Models.Policy.{PolicyBinding}
use matrix_identity_admin.Models.Policy as Policy
use matrix_identity_admin.Lifecycle.Kick.{space_targets}
use matrix_identity_admin.Reconcile.{user_matches_binding}

-- No room stands twice in a list.
abbrev pub apart : List Text → Bool
apart [] = true
apart (x ∷ xs) = not (contains xs x) && apart xs

abbrev pub targets_if : Bool → List Text → List Text
targets_if true targets = targets
targets_if false targets = []

-- The targets of the bindings that act: those that the user matches, and those that remove.
abbrev pub acting_targets :
    (Text → Result (List Text)) → List Text → List Text → List PolicyBinding → List Text
acting_targets children groups roles [] = []
acting_targets children groups roles (b ∷ bs) =
    let room = Policy.room_id b.target in
    targets_if (user_matches_binding b groups roles || b.allow_remove)
      (space_targets room (children room))
    ++ acting_targets children groups roles bs

contains-append :
    (xs ys : List Text) (r : Text) → contains (xs ++ ys) r ≡ (contains xs r || contains ys r)
unfolding contains
contains-append [] ys r = refl
contains-append (x ∷ xs) ys r = ground (arith, contains-append xs ys r)

pub in_first : (xs ys : List Text) (r : Text) → contains xs r ≡ true → contains (xs ++ ys) r ≡ true
in_first xs ys r h = ground (arith, h, contains-append xs ys r)

pub in_second : (xs ys : List Text) (r : Text) → contains ys r ≡ true → contains (xs ++ ys) r ≡ true
in_second xs ys r h = ground (arith, h, contains-append xs ys r)

-- A room of a list is none that the list does not have.
pub not_same :
    (rest : List Text) (room r : Text)
    → contains rest r ≡ true
    → contains rest room ≡ false
    → text_eq room r ≡ false
not_same rest room r h k = elim (Bool-cases (text_eq room r)) [
  | inl e ↦ absurd (ground (arith, h, k, ap (contains rest) (text_eq_sound room r e)))
  | inr e ↦ e
]

pub apart_first : (xs ys : List Text) → apart (xs ++ ys) ≡ true → apart xs ≡ true
apart_first [] ys h = refl
apart_first (x ∷ xs) ys h = ground (arith, h, contains-append xs ys x, apart_first xs ys)

pub apart_second : (xs ys : List Text) → apart (xs ++ ys) ≡ true → apart ys ≡ true
apart_second [] ys h = h
apart_second (x ∷ xs) ys h = ground (arith, h, apart_second xs ys)

pub apart_between :
    (xs ys : List Text) (r : Text)
    → apart (xs ++ ys) ≡ true
    → contains ys r ≡ true
    → contains xs r ≡ false
unfolding contains
apart_between [] ys r h k = refl
apart_between (x ∷ xs) ys r h k = ground (
  arith,
  apart_between xs ys r (ground (arith, h)) k,
  not_same (xs ++ ys) x r (in_second xs ys r k) (ground (arith, h)),
)
