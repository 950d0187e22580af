-- ===== src/PctEncode.antt =====
-- `pct_encode` of src/utils.rs: the percent-encoding of messages in redirects, over the bytes of a
-- string.
pub mod Decode
use matrix_identity_admin.Prelude.{
  ℕ, ◌+◌, ◌/◌, ◌%◌, List, [], ◌∷◌, ◌++◌, Bool, ◌||◌, ◌&&◌, leb, ltb, ◌==◌, if◌then◌else◌,
}
use matrix_identity_admin.Text.{Text}

abbrev pub within : ℕ → ℕ → ℕ → Bool
within low high b = leb low b && leb b high

-- A letter, a digit, or one of - _ . ~
unfoldable pub is_unreserved : ℕ → Bool
is_unreserved b =
    within 65 90 b
    || (within 97 122 b || (within 48 57 b || (b == 45 || (b == 95 || (b == 46 || b == 126)))))

-- `char::from_digit(n, 16)` in upper case.
unfoldable pub hex_digit : ℕ → ℕ
hex_digit n = if ltb n 10 then 48 + n else 55 + n

-- One byte: itself, `+` for a space, or `%` and two digits.
unfoldable pub pct_byte : ℕ → Text
pct_byte b =
    if is_unreserved b
    then b ∷ []
    else if b == 32
    then 43 ∷ []
    else 37 ∷ hex_digit (b / 16) ∷ hex_digit (b % 16) ∷ []

unfoldable pub pct_encode : List ℕ → Text
pct_encode [] = []
pct_encode (b ∷ bs) = pct_byte b ++ pct_encode bs
