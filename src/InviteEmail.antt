-- ===== src/InviteEmail.antt =====
-- `validate_invite_email` of src/services/invite_user.rs. `trim` and `to_lowercase`, which go by the
-- tables of Unicode, are a parameter; `len` counts the bytes of UTF-8.
pub mod Valid
use matrix_identity_admin.Prelude.{
  ℕ, ◌+◌, List, [], ◌∷◌, ◌++◌, Option, none, some, Bool, true, false, not, ◌||◌, ◌&&◌, ltb, leb,
  ◌==◌, all, any, is_empty, length, if◌then◌else◌,
}
use matrix_identity_admin.Text.{Text, codes}
use matrix_identity_admin.Models.Accounts.{is_lower, is_digit}
use matrix_identity_admin.Models.Error.{AppError, Result, ok, err}

pub record ValidatedInviteEmail : Type 0 where
  pub email : Text
  pub local : Text
  pub domain : Text

abbrev pub utf8_len : ℕ → ℕ
utf8_len c = if ltb c 128 then 1 else if ltb c 2048 then 2 else if ltb c 65536 then 3 else 4

-- `len()`
unfoldable pub byte_len : Text → ℕ
byte_len [] = 0
byte_len (c ∷ cs) = utf8_len c + byte_len cs

-- `matches(c).count()`
unfoldable pub count : ℕ → Text → ℕ
count c [] = 0
count c (d ∷ ds) = let rest = count c ds in if d == c then 1 + rest else rest

abbrev pub prepend : ℕ → Option (Text × Text) → Option (Text × Text)
prepend c none = none
prepend c (some (a, b)) = some (c ∷ a, b)

unfoldable pub split_once : ℕ → Text → Option (Text × Text)
split_once c [] = none
split_once c (d ∷ ds) =
    let rest = split_once c ds in if d == c then some ([], ds) else prepend d rest

abbrev pub starts_with : ℕ → Text → Bool
starts_with c [] = false
starts_with c (d ∷ ds) = d == c

abbrev pub ends_with : ℕ → Text → Bool
ends_with c [] = false
ends_with c (d ∷ []) = d == c
ends_with c (d ∷ e ∷ es) = ends_with c (e ∷ es)

-- `contains("..")`
abbrev pub has_double_dot : Text → Bool
has_double_dot [] = false
has_double_dot (d ∷ ds) = (d == 46 && starts_with 46 ds) || has_double_dot ds

abbrev pub extend_first : ℕ → List Text → List Text
extend_first c [] = (c ∷ []) ∷ []
extend_first c (s ∷ ss) = (c ∷ s) ∷ ss

-- `split('.')`
unfoldable pub split : Text → List Text
split [] = [] ∷ []
split (d ∷ ds) = let rest = split ds in if d == 46 then [] ∷ rest else extend_first d rest

unfoldable pub is_email_char : ℕ → Bool
unfolding codes
is_email_char c = is_lower c || (is_digit c || any (λ d. d == c) (codes "!#$%&'*+/=?^_`{}~-."))

unfoldable pub is_valid_email_localpart : Text → Bool
is_valid_email_localpart local =
    not (starts_with 46 local)
    && (not (ends_with 46 local) && (not (has_double_dot local) && all is_email_char local))

abbrev pub is_label_char : ℕ → Bool
is_label_char c = is_lower c || (is_digit c || c == 45)

unfoldable pub is_valid_label : Text → Bool
is_valid_label label = not (
    is_empty label
    || (ltb 63 (byte_len label)
        || (starts_with 45 label || (ends_with 45 label || not (all is_label_char label)))))

unfoldable pub is_valid_email_domain : Text → Bool
is_valid_email_domain domain =
    if starts_with 46 domain || (ends_with 46 domain || has_double_dot domain)
    then false
    else all is_valid_label (split domain) && leb 2 (length (split domain))

abbrev pub invalid : Result ValidatedInviteEmail
invalid = err (AppError.validation (codes "Invalid email address"))

unfoldable pub is_bad_pair : Text → Text → Bool
is_bad_pair local domain =
    is_empty local
    || (is_empty domain
        || (ltb 64 (byte_len local)
            || (ltb 253 (byte_len domain)
                || (not (is_valid_email_localpart local) || not (is_valid_email_domain domain)))))

-- What follows the split at the @.
unfoldable pub validate_parts : Text → Option (Text × Text) → Result ValidatedInviteEmail
validate_parts email none = invalid
validate_parts email (some (local, domain)) =
    if is_bad_pair local domain
    then invalid
    else ok (record { email = email; local = local; domain = domain })

unfoldable pub validate_invite_email : (Text → Text) → Text → Result ValidatedInviteEmail
validate_invite_email normalise raw_email =
    let email = normalise raw_email in
    if is_empty email || ltb 254 (byte_len email)
    then invalid
    else if not (count 64 email == 1)
    then invalid
    else validate_parts email (split_once 64 email)
