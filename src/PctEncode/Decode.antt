-- ===== src/PctEncode/Decode.antt =====
-- The decoding of a form-urlencoded value, as a browser does it, for src/utils.rs.
use matrix_identity_admin.Prelude.{
  ℕ, ◌+◌, ◌-◌, ◌*◌, ◌/◌, ◌%◌, ◌<◌, List, [], ◌∷◌, ◌++◌, Bool, true, false, ◌||◌, ◌&&◌, ltb, ◌==◌,
  if◌then◌else◌, all, all-append, All, ◌≡◌, refl, ap, ◌∙◌, arith, Bool-cases, inl, inr,
}
use matrix_identity_admin.Text.{Text}
use matrix_identity_admin.PctEncode.{is_unreserved, hex_digit, pct_byte, pct_encode}

-- What has been read of an escape.
pub data Pending : Type 0 where
  plain : Pending
  escape : Pending
  half : ℕ → Pending

abbrev pub unhex : ℕ → ℕ
unhex c = if ltb c 65 then c - 48 else c - 55

abbrev pub decode : Pending → Text → List ℕ
decode state [] = []
decode Pending.plain (c ∷ rest) =
    let escaped = decode Pending.escape rest in
    let more = decode Pending.plain rest in
    if c == 37 then escaped else (if c == 43 then 32 else c) ∷ more
decode Pending.escape (c ∷ rest) = decode (Pending.half (unhex c)) rest
decode (Pending.half n) (c ∷ rest) = (16 * n + unhex c) ∷ decode Pending.plain rest

unhex-hex_digit : (n : ℕ) → n < 16 → unhex (hex_digit n) ≡ n
unfolding hex_digit
unhex-hex_digit n h = ground arith

unreserved_plain : (b : ℕ) → is_unreserved b ≡ true → ((b == 37) ≡ false) × ((b == 43) ≡ false)
unfolding is_unreserved
unreserved_plain b h = (ground (arith, h), ground (arith, h))

halves : (b : ℕ) → b < 256 → 16 * (b / 16) + b % 16 ≡ b
halves b h = omega arith

digits_back : (b : ℕ) → b < 256 → 16 * unhex (hex_digit (b / 16)) + unhex (hex_digit (b % 16)) ≡ b
digits_back b h =
    ap (λ n. 16 * n + unhex (hex_digit (b % 16))) (unhex-hex_digit (b / 16) (omega (arith, h)))
    ∙ ap (λ n. 16 * (b / 16) + n) (unhex-hex_digit (b % 16) (omega (arith, h)))
    ∙ halves b h

decode-pct_byte :
    (b : ℕ) (rest : Text)
    → b < 256
    → decode Pending.plain (pct_byte b ++ rest) ≡ b ∷ decode Pending.plain rest
unfolding pct_byte
decode-pct_byte b rest h = elim (Bool-cases (is_unreserved b)) [
  | inl u ↦ ground (arith, u, unreserved_plain b u)
  | inr u ↦ elim (Bool-cases (b == 32)) [
    | inl s ↦ ground (arith, u, s)
    | inr s ↦ rw u (rw s (ap (λ n. n ∷ decode Pending.plain rest) (digits_back b h)))
  ]
]

-- If every byte is below 256, then a decoder of form-urlencoded values reads `pct_encode` of the
-- bytes back as the bytes.
pub decode-pct_encode :
    (bs : List ℕ) → All (λ b. b < 256) bs → decode Pending.plain (pct_encode bs) ≡ bs
unfolding pct_encode
decode-pct_encode [] h = refl
decode-pct_encode (b ∷ bs) h =
    decode-pct_byte b (pct_encode bs) h.0 ∙ ap (λ t. b ∷ t) (decode-pct_encode bs h.1)

-- What may stand in a query parameter's value: an unreserved character, `+` or `%`.
abbrev pub is_query_char : ℕ → Bool
is_query_char c = is_unreserved c || (c == 43 || c == 37)

is_unreserved-hex_digit : (n : ℕ) → n < 16 → is_unreserved (hex_digit n) ≡ true
unfolding is_unreserved hex_digit
is_unreserved-hex_digit n h = ground (arith, h)

safe_byte : (b : ℕ) → b < 256 → all is_query_char (pct_byte b) ≡ true
unfolding pct_byte
safe_byte b h = elim (Bool-cases (is_unreserved b)) [
  | inl u ↦ ground (arith, u)
  | inr u ↦ ground (
    arith,
    u,
    is_unreserved-hex_digit (b / 16) (omega (arith, h)),
    is_unreserved-hex_digit (b % 16) (omega (arith, h)),
  )
]

-- If every byte is below 256, then each character of `pct_encode` of the bytes is a letter, a
-- digit, or one of - _ . ~ + %, so that it cannot end the parameter or the query.
pub is_query_char-pct_encode :
    (bs : List ℕ) → All (λ b. b < 256) bs → all is_query_char (pct_encode bs) ≡ true
unfolding pct_encode
is_query_char-pct_encode [] h = refl
is_query_char-pct_encode (b ∷ bs) h =
    all-append is_query_char (pct_byte b) (pct_encode bs)
    ∙ ap (λ t. t && all is_query_char (pct_encode bs)) (safe_byte b h.0)
    ∙ is_query_char-pct_encode bs h.1
