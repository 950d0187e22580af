-- ===== src/Utf8.antt =====
-- `as_bytes` and `len` of Rust's strings: the UTF-8 encoding of a list of Unicode scalar values.
use matrix_identity_admin.Prelude.{
  ℕ, ◌+◌, ◌/◌, ◌%◌, ◌<◌, List, [], ◌∷◌, ◌++◌, Bool, true, ltb, if◌then◌else◌, all, All, All-append,
  Bool-cases, inl, inr, ◌≡◌, refl, ap, arith,
}
use matrix_identity_admin.Text.{Text}

unfoldable pub utf8_bytes : ℕ → List ℕ
utf8_bytes c =
    if ltb c 128
    then c ∷ []
    else if ltb c 2048
    then (192 + c / 64) ∷ (128 + c % 64) ∷ []
    else if ltb c 65536
    then (224 + c / 4096) ∷ (128 + c / 64 % 64) ∷ (128 + c % 64) ∷ []
    else (240 + c / 262144) ∷ (128 + c / 4096 % 64) ∷ (128 + c / 64 % 64) ∷ (128 + c % 64) ∷ []

unfoldable pub utf8 : Text → List ℕ
utf8 [] = []
utf8 (c ∷ cs) = utf8_bytes c ++ utf8 cs

abbrev pub Bytes : List ℕ → Type 0
Bytes = All (λ b. b < 256)

-- Scalar values are below 0x110000.
abbrev pub Scalars : Text → Type 0
Scalars = All (λ c. c < 1114112)

utf8_bytes-Bytes : (c : ℕ) → c < 1114112 → Bytes (utf8_bytes c)
unfolding utf8_bytes
utf8_bytes-Bytes c h = elim (Bool-cases (ltb c 128)) [
  | inl a ↦ rw a (ground (arith, a), tt)
  | inr a ↦ rw a (elim (Bool-cases (ltb c 2048)) [
    | inl b ↦ rw b (ground (arith, b), (ground arith, tt))
    | inr b ↦ rw b (elim (Bool-cases (ltb c 65536)) [
      | inl d ↦ rw d (ground (arith, d), (ground arith, (ground arith, tt)))
      | inr d ↦ rw d (ground (arith, h), (ground arith, (ground arith, (ground arith, tt))))
    ])
  ])
]

pub utf8-Bytes : (t : Text) → Scalars t → Bytes (utf8 t)
unfolding utf8
utf8-Bytes [] h = tt
utf8-Bytes (c ∷ cs) (h, hs) =
    All-append (λ b. b < 256) (utf8_bytes c) (utf8 cs) (utf8_bytes-Bytes c h) (utf8-Bytes cs hs)

abbrev pub is_ascii : ℕ → Bool
is_ascii b = ltb b 128

pub utf8-ascii : (t : Text) → all is_ascii t ≡ true → utf8 t ≡ t
unfolding utf8 utf8_bytes
utf8-ascii [] h = refl
utf8-ascii (c ∷ cs) h = elim (Bool-cases (ltb c 128)) [
  | inl a ↦ rw a (ap (λ r. c ∷ r) (utf8-ascii cs (ground (arith, h))))
  | inr a ↦ absurd (ground (arith, a, h))
]

pub ascii-utf8 : (t : Text) → all is_ascii (utf8 t) ≡ true → all is_ascii t ≡ true
unfolding utf8 utf8_bytes
ascii-utf8 [] h = refl
ascii-utf8 (c ∷ cs) h = ground (arith, h, ascii-utf8 cs)
