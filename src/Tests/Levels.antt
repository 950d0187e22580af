-- ===== src/Tests/Levels.antt =====
-- The power levels of a room in which one user has a level, and another gets one.
use matrix_identity_admin.Prelude.{[], ◌∷◌, some, true, false, ◌≡◌, refl}
use matrix_identity_admin.Text.{codes, text_eq, pos}
use matrix_identity_admin.SynapseClient.{Value, Members, lookup, with_level}
use matrix_identity_admin.SynapseClient.Levels.{takes_levels, level_in, field, with_level-Changes}

abbrev levels : Members
levels =
    Members.member (codes "users")
      (Value.object (Members.member (1 ∷ []) (Value.number (pos 50)) Members.end))
      (Members.member (9 ∷ []) (Value.number (pos 0)) Members.end)

has_users : takes_levels (lookup (codes "users") levels) ≡ true
unfolding lookup text_eq codes
has_users = refl

other_user : text_eq (2 ∷ []) (1 ∷ []) ≡ false
unfolding text_eq
other_user = refl

other_field : text_eq (codes "users") (9 ∷ []) ≡ false
unfolding text_eq codes
other_field = refl

with_level-Changes_example :
    let after = with_level (2 ∷ []) (pos 100) (Value.object levels) in
    (level_in (2 ∷ []) after ≡ some (Value.number (pos 100)))
    × (level_in (1 ∷ []) after ≡ level_in (1 ∷ []) (Value.object levels))
    × (field (9 ∷ []) after ≡ field (9 ∷ []) (Value.object levels))
with_level-Changes_example =
    with_level-Changes (2 ∷ []) (1 ∷ []) (9 ∷ []) (pos 100) levels has_users other_user other_field
