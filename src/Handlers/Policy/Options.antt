-- ===== src/Handlers/Policy/Options.antt =====
-- src/handlers/policy.rs: the markup of the fragments, whatever the names in them are.
use matrix_identity_admin.Prelude.{
  ℕ, suc, ◌+◌, ◌*◌, List, [], ◌∷◌, ◌++◌, map, length, length-map, ◌==◌, Bool-cases, inl, inr, ◌≡◌,
  refl, sym, ◌∙◌, arith,
}
use matrix_identity_admin.Text.{Text, codes}
use matrix_identity_admin.Models.Error.{ok}
use matrix_identity_admin.Models.Accounts.{KeycloakGroup, KeycloakRole}
use matrix_identity_admin.Models.Policy.{CachedRoom}
use matrix_identity_admin.InviteEmail.{count}
use matrix_identity_admin.InviteEmail.Valid.{count-append}
use matrix_identity_admin.Handlers.Policy.{
  replace, escape_html, option_element, named_options, groups_html, roles_html, room_options,
  room_label, rooms_html,
}

-- Replacing a character brings in no other that its replacement lacks.
replace_keeps :
    (e c : ℕ) (by t : Text) → count e by ≡ 0 → count e t ≡ 0 → count e (replace c by t) ≡ 0
unfolding replace count
replace_keeps e c by [] h k = refl
replace_keeps e c by (d ∷ ds) h k = elim (Bool-cases (d == c)) [
  | inl same ↦ rw same (
      count-append e by (replace c by ds)
      ∙ omega (arith, h, replace_keeps e c by ds h (ground (arith, k))))
  | inr other ↦ rw other (ground (arith, k, replace_keeps e c by ds h))
]

replace_removes : (c : ℕ) (by t : Text) → count c by ≡ 0 → count c (replace c by t) ≡ 0
unfolding replace count
replace_removes c by [] h = refl
replace_removes c by (d ∷ ds) h = elim (Bool-cases (d == c)) [
  | inl same ↦
      rw same (count-append c by (replace c by ds) ∙ omega (arith, h, replace_removes c by ds h))
  | inr other ↦ rw other (rw other (replace_removes c by ds h))
]

-- No angle bracket and no quotation mark.
abbrev pub Inert : Text → Type 0
Inert t = (count 60 t ≡ 0) × (count 62 t ≡ 0) × (count 34 t ≡ 0) × (count 39 t ≡ 0)

escape_html-Inert : (value : Text) → Inert (escape_html value)
unfolding escape_html count codes
escape_html-Inert value = (
  replace_keeps 60 39 _ _ refl
      (replace_keeps 60 34 _ _ refl (replace_keeps 60 62 _ _ refl (replace_removes 60 _ _ refl))),
  replace_keeps 62 39 _ _ refl (replace_keeps 62 34 _ _ refl (replace_removes 62 _ _ refl)),
  replace_keeps 34 39 _ _ refl (replace_removes 34 _ _ refl),
  replace_removes 39 _ _ refl,
)

-- The angle brackets and double quotes of n option elements, and no single quote.
abbrev pub Markup : ℕ → Text → Type 0
Markup n t = (count 60 t ≡ 2 * n) × (count 62 t ≡ 2 * n) × (count 34 t ≡ 2 * n) × (count 39 t ≡ 0)

Markup-append : (m n : ℕ) (s t : Text) → Markup m s → Markup n t → Markup (m + n) (s ++ t)
Markup-append m n s t h k = (
  count-append 60 s t ∙ omega (arith, h, k),
  count-append 62 s t ∙ omega (arith, h, k),
  count-append 34 s t ∙ omega (arith, h, k),
  count-append 39 s t ∙ omega (arith, h, k),
)

one_more : (n : ℕ) (t : Text) → Markup (1 + n) t → Markup (suc n) t
one_more n t h = (omega (arith, h), omega (arith, h), omega (arith, h), omega (arith, h))

option_count :
    (c : ℕ) (v l : Text)
    → count c (option_element v l)
      ≡ count c (codes "<option value=\"")
        + (count c v + (count c (codes "\">") + (count c l + count c (codes "</option>"))))
unfolding option_element
option_count c v l = omega (
  arith,
  count-append c (codes "<option value=\"") (v ++ (codes "\">" ++ (l ++ codes "</option>"))),
  count-append c v (codes "\">" ++ (l ++ codes "</option>")),
  count-append c (codes "\">") (l ++ codes "</option>"),
  count-append c l (codes "</option>"),
)

option_element-Markup : (v l : Text) → Inert v → Inert l → Markup 1 (option_element v l)
unfolding count codes
option_element-Markup v l h k = (
  option_count 60 v l ∙ omega (arith, h, k),
  option_count 62 v l ∙ omega (arith, h, k),
  option_count 34 v l ∙ omega (arith, h, k),
  option_count 39 v l ∙ omega (arith, h, k),
)

-- One option element before others.
with_option :
    (n : ℕ) (value label rest : Text)
    → Markup n rest
    → Markup (suc n) (option_element (escape_html value) (escape_html label) ++ rest)
with_option n value label rest h =
    let v = escape_html value in
    let l = escape_html label in
    one_more n (option_element v l ++ rest) (
      Markup-append 1 n (option_element v l) rest
        (option_element-Markup v l (escape_html-Inert value) (escape_html-Inert label)) h)

room_options-Markup : (rooms : List CachedRoom) → Markup (length rooms) (room_options rooms)
unfolding room_options count
room_options-Markup [] = (refl, refl, refl, refl)
room_options-Markup (r ∷ rest) =
    with_option (length rest) r.room_id (room_label r) (room_options rest)
      (room_options-Markup rest)

named_options-Markup : (names : List Text) → Markup (length names) (named_options names)
unfolding named_options count
named_options-Markup [] = (refl, refl, refl, refl)
named_options-Markup (name ∷ names) =
    with_option (length names) name name (named_options names) (named_options-Markup names)

room_first : Markup 1 (codes "<option value=\"\">Select a room…</option>")
unfolding count codes
room_first = (refl, refl, refl, refl)

rooms_part : (rooms : List CachedRoom) → Markup (1 + length rooms) (rooms_html rooms)
unfolding rooms_html count codes
rooms_part [] = (refl, refl, refl, refl)
rooms_part (r ∷ rest) =
    Markup-append 1 (length (r ∷ rest)) (codes "<option value=\"\">Select a room…</option>")
      (room_options (r ∷ rest)) room_first (room_options-Markup (r ∷ rest))

names_part :
    (n : ℕ) (first : Text) (names : List Text)
    → Markup 1 first
    → length names ≡ n
    → Markup (1 + n) (first ++ named_options names)
names_part n first names h k =
    rw (sym k)
      (Markup-append 1 (length names) first (named_options names) h (named_options-Markup names))

first_option :
    Markup 1 (codes "<option value=\"\">Select a group…</option>")
    × Markup 1 (codes "<option value=\"\">Select a role…</option>")
unfolding count codes
first_option = ((refl, refl, refl, refl), (refl, refl, refl, refl))

-- The fragment of the cached rooms, and those of the groups and of the roles that Keycloak lists,
-- have the angle brackets and the double quotes of one option element more than there are rooms,
-- groups or roles, and no single quote: no name, alias or id, whatever characters it has, opens
-- or closes a tag or an attribute.
pub options-Markup :
    (rooms : List CachedRoom) (groups : List KeycloakGroup) (roles : List KeycloakRole)
    → Markup (1 + length rooms) (rooms_html rooms)
      × Markup (1 + length groups) (groups_html (ok groups))
      × Markup (1 + length roles) (roles_html (ok roles))
unfolding rooms_html groups_html roles_html
options-Markup rooms groups roles = (
  rooms_part rooms,
  names_part (length groups) (codes "<option value=\"\">Select a group…</option>")
      (map (λ g. g.name) groups) first_option.0 (length-map (λ g. g.name) groups),
  names_part (length roles) (codes "<option value=\"\">Select a role…</option>")
      (map (λ r. r.name) roles) first_option.1 (length-map (λ r. r.name) roles),
)
