-- ===== src/Handlers/Policy.antt =====
-- src/handlers/policy.rs: the forms of the policy page and the fragments of its lists, up to the
-- template of the page. `trim`, which goes by the tables of Unicode, is a parameter; `parse` of an
-- i64 is that of Rust's standard library.
pub mod Options
use matrix_identity_admin.Prelude.{
  ℕ, zero, suc, ◌+◌, ◌-◌, ◌*◌, ◌^◌, List, [], ◌∷◌, ◌++◌, map, Option, none, some, Bool, true, false,
  not, ◌||◌, ltb, leb, ◌==◌, all, is_some, is_empty, length, if◌then◌else◌,
}
use matrix_identity_admin.Text.{Text, codes, text_eq, show_nat, ℤ, pos, negsuc}
use matrix_identity_admin.Models.Error.{AppError, Result, ok, err}
use matrix_identity_admin.Models.Accounts.{KeycloakGroup, KeycloakRole, is_digit}
use matrix_identity_admin.Models.Policy.{PolicyBinding, PolicySubject, PolicyTarget, CachedRoom}
use matrix_identity_admin.Effects.Exec.{Exec, pure, or_return, try_then, ◌>>=◌}
use matrix_identity_admin.Effects.Clients.{MatrixService}
use matrix_identity_admin.Effects.Clients.Keycloak
use matrix_identity_admin.PolicyService.{
  list_bindings, list_cached_rooms, create_binding, update_binding, delete_binding,
  refresh_room_cache,
}
use matrix_identity_admin.Handlers.Session.{AppState, AuthenticatedAdmin, validated}
use matrix_identity_admin.PctEncode.{pct_encode}
use matrix_identity_admin.Utf8.{utf8}
use matrix_identity_admin.Handlers.Audit.{and_ok}

pub record CreateBindingForm : Type 0 where
  pub csrf : Text
  pub subject_type : Text
  pub subject_value : Text
  pub target_type : Text
  pub target_room_id : Text
  pub power_level : Option Text
  pub allow_remove : Option Text

pub record UpdateBindingForm : Type 0 where
  pub csrf : Text
  pub power_level : Option Text
  pub allow_remove : Option Text

-- The value of decimal digits, from the left.
unfoldable pub decimal : ℕ → Text → ℕ
decimal n [] = n
decimal n (d ∷ ds) = decimal (n * 10 + (d - 48)) ds

abbrev pub minus : ℕ → ℤ
minus zero = pos zero
minus (suc n) = negsuc n

unfoldable pub parse_unsigned : ℕ → (ℕ → ℤ) → Text → Option ℤ
parse_unsigned limit sign ds =
    if is_empty ds || not (all is_digit ds)
    then none
    else if ltb limit (decimal 0 ds)
    then none
    else some (sign (decimal 0 ds))

-- `parse::<i64>()`
unfoldable pub parse_i64 : Text → Option ℤ
parse_i64 [] = none
parse_i64 (c ∷ cs) =
    if c == 45
    then parse_unsigned (2 ^ 63) minus cs
    else if c == 43
    then parse_unsigned (2 ^ 63 - 1) pos cs
    else parse_unsigned (2 ^ 63 - 1) pos (c ∷ cs)

abbrev pub parsed_level : Option ℤ → Result (Option ℤ)
parsed_level none = err (AppError.validation (codes "Invalid power level"))
parsed_level (some level) = ok (some level)

unfoldable pub parse_optional_power_level : (Text → Text) → Option Text → Result (Option ℤ)
parse_optional_power_level trim none = ok none
parse_optional_power_level trim (some raw) =
    let trimmed = trim raw in if is_empty trimmed then ok none else parsed_level (parse_i64 trimmed)

-- `replace(c, by)` of one character
unfoldable pub replace : ℕ → Text → Text → Text
replace c by [] = []
replace c by (d ∷ ds) = (if d == c then by else d ∷ []) ++ replace c by ds

unfoldable pub escape_html : Text → Text
escape_html value = replace 39 (codes "&#39;") (
    replace 34 (codes "&quot;")
      (replace 62 (codes "&gt;") (replace 60 (codes "&lt;") (replace 38 (codes "&amp;") value))))

unfoldable pub subject_from : Text → Text → Result PolicySubject
subject_from type value =
    if text_eq type (codes "group")
    then ok (PolicySubject.group value)
    else if text_eq type (codes "role")
    then ok (PolicySubject.role value)
    else err (AppError.validation (codes "Invalid subject type"))

unfoldable pub target_from : Text → Text → Result PolicyTarget
target_from type id =
    if text_eq type (codes "room")
    then ok (PolicyTarget.room id)
    else if text_eq type (codes "space")
    then ok (PolicyTarget.space id)
    else err (AppError.validation (codes "Invalid target type"))

pub record PolicyPage : Type 0 where
  pub bindings : List PolicyBinding
  pub room_count : ℕ
  pub synapse_enabled : Bool

abbrev pub policy_notice : Text → Text
policy_notice message = codes "/policy?notice=" ++ pct_encode (utf8 message)

-- Where a change of one binding leads.
unfoldable pub changed_redirect : Text → Bool → Text
changed_redirect message true = policy_notice message
changed_redirect message false =
    codes "/policy?warning=" ++ pct_encode (utf8 (codes "Binding not found"))

-- The option elements of the lists.
unfoldable pub option_element : Text → Text → Text
option_element value label =
    codes "<option value=\"" ++ (value ++ (codes "\">" ++ (label ++ codes "</option>")))

unfoldable pub named_options : List Text → Text
named_options [] = []
named_options (name ∷ names) =
    option_element (escape_html name) (escape_html name) ++ named_options names

unfoldable pub groups_html : Result (List KeycloakGroup) → Text
groups_html (ok groups) =
    codes "<option value=\"\">Select a group…</option>" ++ named_options (map (λ g. g.name) groups)
groups_html (err e) = codes "<option value=\"\" disabled>Failed to load groups — try again</option>"

unfoldable pub roles_html : Result (List KeycloakRole) → Text
roles_html (ok roles) =
    codes "<option value=\"\">Select a role…</option>" ++ named_options (map (λ r. r.name) roles)
roles_html (err e) = codes "<option value=\"\" disabled>Failed to load roles — try again</option>"

unfoldable pub room_name : Option Text → Option Text → Text → Text
room_name (some name) (some alias) id = name ++ (codes " (" ++ (alias ++ codes ")"))
room_name (some name) none id = name
room_name none (some alias) id = alias
room_name none none id = id

unfoldable pub room_label : CachedRoom → Text
room_label r =
    (if r.is_space then codes "[Space]" else codes "[Room]")
    ++ (codes " " ++ room_name r.name r.canonical_alias r.room_id)

unfoldable pub room_options : List CachedRoom → Text
room_options [] = []
room_options (r ∷ rest) =
    option_element (escape_html r.room_id) (escape_html (room_label r)) ++ room_options rest

unfoldable pub rooms_html : List CachedRoom → Text
rooms_html rooms =
    if is_empty rooms
    then codes "<option value=\"\" disabled>No rooms cached — click Refresh Rooms</option>"
    else codes "<option value=\"\">Select a room…</option>" ++ room_options rooms

module _ {W : Type 0} (state : AppState W) where
  unfoldable pub list : Exec W (Result PolicyPage)
  list = try_then (list_bindings state.policy_service) λ bindings.
      try_then (list_cached_rooms state.policy_service) λ rooms. pure (
        ok (record {
          bindings = bindings;
          room_count = length rooms;
          synapse_enabled = is_some state.synapse;
        }))

  unfoldable pub api_groups : Exec W (Result Text)
  api_groups = do groups ← Keycloak.list_groups state.keycloak; pure (ok (groups_html groups))

  unfoldable pub api_roles : Exec W (Result Text)
  api_roles = do roles ← Keycloak.list_realm_roles state.keycloak; pure (ok (roles_html roles))

  unfoldable pub api_rooms : Exec W (Result Text)
  api_rooms =
      try_then (list_cached_rooms state.policy_service) λ rooms. pure (ok (rooms_html rooms))

module _ {W : Type 0} (state : AppState W) (trim : Text → Text) (admin : AuthenticatedAdmin) where
  -- The subject, the target and the power level of a form, in the order of their checks.
  unfoldable pub binding_from : CreateBindingForm → Result (PolicySubject × PolicyTarget × Option ℤ)
  binding_from form = and_ok (subject_from form.subject_type form.subject_value) λ subject.
      and_ok (target_from form.target_type form.target_room_id) λ target.
        and_ok (parse_optional_power_level trim form.power_level)
          λ level. ok (subject, target, level)

  unfoldable pub create : CreateBindingForm → Exec W (Result Text)
  create form = validated state admin form.csrf (
      or_return
        (λ b.
          try_then
            (create_binding state.policy_service state.audit admin.actor b.0 b.1 b.2
              (is_some form.allow_remove))
            λ created. pure (ok (policy_notice (codes "Binding created"))))
        (binding_from form))

  unfoldable pub update : Text → UpdateBindingForm → Exec W (Result Text)
  update id form = validated state admin form.csrf (
      or_return
        (λ level.
          try_then
            (update_binding state.policy_service state.audit admin.actor id level
              (is_some form.allow_remove))
            λ updated. pure (ok (changed_redirect (codes "Binding updated") updated)))
        (parse_optional_power_level trim form.power_level))

  unfoldable pub delete : Text → Text → Exec W (Result Text)
  delete id csrf = validated state admin csrf (
      try_then (delete_binding state.policy_service state.audit admin.actor id)
        λ deleted. pure (ok (changed_redirect (codes "Binding deleted") deleted)))

  abbrev pub refreshed : Option ℕ → Option Text
  refreshed none = none
  refreshed (some count) =
      some (policy_notice (codes "Refreshed " ++ (show_nat count ++ codes " rooms from Synapse")))

  -- None if the fuel of the refresh runs out.
  unfoldable pub refresh_rooms : ℕ → Text → Exec W (Result (Option Text))
  refresh_rooms fuel csrf = validated state admin csrf (elim state.synapse [
    | none ↦ pure (err (AppError.not_found (codes "Synapse is not configured")))
    | some synapse ↦
        try_then (refresh_room_cache state.policy_service synapse fuel)
          λ count. pure (ok (refreshed count))
  ])
