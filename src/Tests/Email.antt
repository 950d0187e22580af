-- ===== src/Tests/Email.antt =====
-- The validation of two addresses, with no case to fold.
use matrix_identity_admin.Prelude.{[], ◌∷◌, ◌++◌, ◌≡◌, refl, true, ◌≤◌, arith}
use matrix_identity_admin.Text.{Text, codes}
use matrix_identity_admin.Models.Error.{ok}
use matrix_identity_admin.InviteEmail.{
  byte_len, is_valid_email_localpart, is_valid_email_domain, is_valid_label, split, is_email_char,
  validate_invite_email,
}
use matrix_identity_admin.InviteEmail.Valid.{
  Validated, validate_invite_email-Validated, validate_invite_email_accepts,
}

-- "ada", "m.org" and "ada@m.org"
abbrev ada : Text
ada = 97 ∷ 100 ∷ 97 ∷ []

abbrev m_org : Text
m_org = 109 ∷ 46 ∷ 111 ∷ 114 ∷ 103 ∷ []

abbrev as_is : Text → Text
as_is t = t

validate_invite_email-Validated_example :
    Validated (ada ++ 64 ∷ m_org) (validate_invite_email as_is (ada ++ 64 ∷ m_org))
validate_invite_email-Validated_example = validate_invite_email-Validated as_is (ada ++ 64 ∷ m_org)

good_parts : (is_valid_email_localpart ada ≡ true) × (is_valid_email_domain m_org ≡ true)
unfolding is_valid_email_localpart is_valid_email_domain is_valid_label split is_email_char byte_len
    codes
good_parts = (refl, refl)

short_parts : (byte_len ada ≤ 64) × (byte_len m_org ≤ 253) × (byte_len (ada ++ 64 ∷ m_org) ≤ 254)
unfolding byte_len
short_parts = (omega arith, omega arith, omega arith)

validate_invite_email_accepts_example :
    validate_invite_email as_is (ada ++ 64 ∷ m_org)
    ≡ ok (record { email = ada ++ 64 ∷ m_org; local = ada; domain = m_org })
validate_invite_email_accepts_example =
    validate_invite_email_accepts as_is (ada ++ 64 ∷ m_org) ada m_org refl refl good_parts.0
      good_parts.1 short_parts.0 short_parts.1 short_parts.2
