-- ===== src/Tests/Query.antt =====
-- The percent-encoding of "a é%".
use matrix_identity_admin.Prelude.{[], ◌∷◌, ◌≡◌, arith}
use matrix_identity_admin.PctEncode.{pct_encode}
use matrix_identity_admin.PctEncode.Decode.{Pending, decode, decode-pct_encode}

decode-pct_encode_example :
    decode Pending.plain (pct_encode (97 ∷ 32 ∷ 195 ∷ 169 ∷ 37 ∷ []))
    ≡ 97 ∷ 32 ∷ 195 ∷ 169 ∷ 37 ∷ []
decode-pct_encode_example =
    decode-pct_encode (97 ∷ 32 ∷ 195 ∷ 169 ∷ 37 ∷ [])
      (omega arith, (omega arith, (omega arith, (omega arith, (omega arith, tt)))))
