-- ===== src/SynapseClient/Levels.antt =====
-- src/clients/synapse.rs: the power levels that are written back.
use matrix_identity_admin.Prelude.{
  Option, none, some, Bool, true, false, if◌then◌else◌, Bool-cases, inl, inr, ◌≡◌, refl, ap, ◌∙◌,
  arith,
}
use matrix_identity_admin.Text.{Text, codes, text_eq, text_eq_refl, text_eq_sound, ℤ}
use matrix_identity_admin.SynapseClient.{
  Value, Members, lookup, insert_member, put_users, with_level,
}

lookup-insert_member :
    (key : Text) (v : Value) (ms : Members) → lookup key (insert_member key v ms) ≡ some v
unfolding lookup insert_member
lookup-insert_member key v Members.end = rw (text_eq_refl key) refl
lookup-insert_member key v (Members.member k w rest) = elim (Bool-cases (text_eq k key)) [
  | inl same ↦ rw same (rw same refl)
  | inr other ↦ rw other (rw other (lookup-insert_member key v rest))
]

lookup-other :
    (key other : Text) (v : Value) (ms : Members)
    → text_eq key other ≡ false
    → lookup other (insert_member key v ms) ≡ lookup other ms
unfolding lookup insert_member
lookup-other key other v Members.end h = rw h refl
lookup-other key other v (Members.member k w rest) h = elim (Bool-cases (text_eq k key)) [
  | inl same ↦ rw same (rw (ap (λ t. text_eq t other) (text_eq_sound k key same)) (rw h refl))
  | inr differs ↦
      rw differs (ap (λ r. if text_eq k other then some w else r) (lookup-other key other v rest h))
]

abbrev pub field : Text → Value → Option Value
field key (Value.object ms) = lookup key ms
field key v = none

abbrev pub in_users : Text → Option Value → Option Value
in_users user (some (Value.object us)) = lookup user us
in_users user v = none

-- The level that an event of power levels gives a user.
abbrev pub level_in : Text → Value → Option Value
level_in user v = in_users user (field (codes "users") v)

-- The value of `users` can take a level: it is missing or an object.
abbrev pub takes_levels : Option Value → Bool
takes_levels none = true
takes_levels (some (Value.object us)) = true
takes_levels (some v) = false

put_users-Changes :
    (user other key : Text) (level : ℤ) (users : Option Value) (ms : Members)
    → takes_levels users ≡ true
    → text_eq user other ≡ false
    → text_eq (codes "users") key ≡ false
    → (in_users user (lookup (codes "users") (put_users user level users ms))
        ≡ some (Value.number level))
      × (in_users other (lookup (codes "users") (put_users user level users ms))
          ≡ in_users other users)
      × (lookup key (put_users user level users ms) ≡ lookup key ms)
unfolding put_users lookup
put_users-Changes user other key level none ms h o k =
    let us = insert_member user (Value.number level) Members.end in
    let found = lookup-insert_member (codes "users") (Value.object us) ms in
    (
      ap (in_users user) found ∙ lookup-insert_member user (Value.number level) Members.end,
      ap (in_users other) found ∙ lookup-other user other (Value.number level) Members.end o,
      lookup-other (codes "users") key (Value.object us) ms k,
    )
put_users-Changes user other key level (some (Value.object old)) ms h o k =
    let us = insert_member user (Value.number level) old in
    let found = lookup-insert_member (codes "users") (Value.object us) ms in
    (
      ap (in_users user) found ∙ lookup-insert_member user (Value.number level) old,
      ap (in_users other) found ∙ lookup-other user other (Value.number level) old o,
      lookup-other (codes "users") key (Value.object us) ms k,
    )
put_users-Changes user other key level (some (Value.number n)) ms h o k = absurd (ground (arith, h))
put_users-Changes user other key level (some (Value.string s)) ms h o k = absurd (ground (arith, h))
put_users-Changes user other key level (some (Value.other s)) ms h o k = absurd (ground (arith, h))

-- Let the power levels of a room be an object whose `users` is missing or an object. What
-- `set_power_level` writes back gives the user the new level, every other user the level it had,
-- and every field but `users` the value it had.
pub with_level-Changes :
    (user other key : Text) (level : ℤ) (ms : Members)
    → takes_levels (lookup (codes "users") ms) ≡ true
    → text_eq user other ≡ false
    → text_eq (codes "users") key ≡ false
    → let before = Value.object ms in
      let after = with_level user level before in
      (level_in user after ≡ some (Value.number level))
      × (level_in other after ≡ level_in other before)
      × (field key after ≡ field key before)
unfolding with_level
with_level-Changes user other key level ms h o k =
    put_users-Changes user other key level (lookup (codes "users") ms) ms h o k
