-- ===== src/Handlers/Session/Flash.antt =====
-- src/handlers: the message of a redirect after it has been cut.
use matrix_identity_admin.Prelude.{
  ℕ, zero, suc, ◌≤◌, [], ◌∷◌, Bool, true, ltb, all, all-append, length, length-append, Bool-cases,
  inl, inr, ◌≡◌, refl, arith,
}
use matrix_identity_admin.Text.{Text, codes}
use matrix_identity_admin.Utf8.{utf8, Scalars, utf8-Bytes}
use matrix_identity_admin.PctEncode.{pct_encode, is_unreserved}
use matrix_identity_admin.PctEncode.Decode.{is_query_char, is_query_char-pct_encode}
use matrix_identity_admin.AuditQueries.{take}
use matrix_identity_admin.AuditQueries.Pages.{length-take}
use matrix_identity_admin.Handlers.Session.{flash}

all-take : (p : ℕ → Bool) (n : ℕ) (t : Text) → all p t ≡ true → all p (take n t) ≡ true
unfolding take
all-take p zero t h = refl
all-take p (suc n) [] h = refl
all-take p (suc n) (c ∷ cs) h = ground (arith, h, all-take p n cs)

ellipsis : (length (codes "%E2%80%A6") ≡ 9) × (all is_query_char (codes "%E2%80%A6") ≡ true)
unfolding codes is_unreserved
ellipsis = (refl, refl)

abbrev pub Fits : Text → Type 0
Fits t = (length t ≤ 409) × (all is_query_char t ≡ true)

-- The message that a redirect carries, of a text of Unicode scalar values, has at most 409
-- characters, and each is a letter, a digit, or one of - _ . ~ + %, so that no message, however
-- long, can end the parameter or lengthen the location beyond this.
pub flash-Fits : (message : Text) → Scalars message → Fits (flash message)
unfolding flash
flash-Fits message h =
    let warning = pct_encode (utf8 message) in
    let safe = is_query_char-pct_encode (utf8 message) (utf8-Bytes message h) in
    elim (Bool-cases (ltb 400 (length warning))) [
      | inl long ↦ rw long (
        omega (
          arith,
          length-append (take 400 warning) (codes "%E2%80%A6"),
          length-take 400 warning,
          ellipsis,
        ),
        ground (
          arith,
          all-append is_query_char (take 400 warning) (codes "%E2%80%A6"),
          ellipsis,
          all-take is_query_char 400 warning safe,
        ),
      )
      | inr short ↦ rw short (ground (arith, short), safe)
    ]
