-- ===== src/Handlers/Session/Csrf.antt =====
-- src/auth/csrf.rs: which tokens pass, and what a handler does for a token that does not.
use matrix_identity_admin.Prelude.{
  ℕ, List, [], Bool, true, false, length, ◌==◌, all, if◌then◌else◌, Bool-cases, inl, inr, ◌≡◌, refl,
  sym, ap, ◌∙◌, arith,
}
use matrix_identity_admin.Text.{Text, text_eq, text_eq_sound, text_eq_refl}
use matrix_identity_admin.Utf8.{utf8, is_ascii, utf8-ascii, ascii-utf8}
use matrix_identity_admin.Models.Error.{Result, ok, err}
use matrix_identity_admin.Effects.Exec.{World, Exec, or_return}
use matrix_identity_admin.Handlers.Session.{
  AppState, AuthenticatedAdmin, constant_time_eq, validate, validated, invalid_token,
}

-- What the crate documents of slices of one length.
abbrev pub Compares : (List ℕ → List ℕ → Bool) → Type 0
Compares ct_eq = (a b : List ℕ) → length a ≡ length b → ct_eq a b ≡ text_eq a b

other_length : (a b : List ℕ) → (length a == length b) ≡ false → text_eq a b ≡ false
other_length a b h = elim (Bool-cases (text_eq a b)) [
  | inl e ↦ absurd (ground (arith, h, ap length (text_eq_sound a b e)))
  | inr n ↦ n
]

pub constant_time_eq-text_eq :
    (ct_eq : List ℕ → List ℕ → Bool)
    → Compares ct_eq
    → (a b : List ℕ) → constant_time_eq ct_eq a b ≡ text_eq a b
unfolding constant_time_eq
constant_time_eq-text_eq ct_eq compares a b = elim (Bool-cases (length a == length b)) [
  | inl same ↦ rw same (compares a b (ground (arith, same)))
  | inr other ↦ rw other (sym (other_length a b other))
]

-- Encoding keeps a token of ASCII apart from every other text.
text_eq-utf8 : (s t : Text) → all is_ascii s ≡ true → text_eq (utf8 s) (utf8 t) ≡ text_eq s t
text_eq-utf8 s t a = rw (utf8-ascii s a) (elim (Bool-cases (text_eq s (utf8 t))) [
  | inl e ↦
      let same = text_eq_sound s (utf8 t) e in
      let plain = utf8-ascii t (ascii-utf8 t (ap (all is_ascii) (sym same) ∙ a)) in
      ap (text_eq s) plain
  | inr n ↦ n ∙ sym (different n)
])
  where
    different : text_eq s (utf8 t) ≡ false → text_eq s t ≡ false
    different n = elim (Bool-cases (text_eq s t)) [
      | inl e ↦ absurd (
          ground (
            arith,
            n,
            text_eq_refl s,
            ap (text_eq s) (utf8-ascii t (ap (all is_ascii) (sym (text_eq_sound s t e)) ∙ a)),
            e,
          ))
      | inr m ↦ m
    ]

-- If the comparison of the crate is right for slices of one length, and the token of the session
-- is ASCII, then `validate` accepts the submitted token exactly if it is the token of the session.
pub validate-text_eq :
    (ct_eq : List ℕ → List ℕ → Bool) (session_token submitted_token : Text)
    → Compares ct_eq
    → all is_ascii session_token ≡ true
    → validate ct_eq session_token submitted_token
      ≡ (if text_eq session_token submitted_token then ok tt else err invalid_token)
unfolding validate
validate-text_eq ct_eq session_token submitted_token compares a =
    rw (constant_time_eq-text_eq ct_eq compares (utf8 session_token) (utf8 submitted_token))
      (rw (text_eq-utf8 session_token submitted_token a) refl)

-- An action that does nothing but answer that the token is invalid.
abbrev pub Refuses : {W A : Type 0} → Exec W (Result A) → Type 0
Refuses {W} m = (w : World W) → m w ≡ record { value = err invalid_token; world = w; events = [] }

pub validated-Refuses :
    {W A : Type 0} (state : AppState W) (admin : AuthenticatedAdmin) (csrf : Text)
    (body : Exec W (Result A))
    → Compares state.ct_eq
    → all is_ascii admin.csrf_token ≡ true
    → text_eq admin.csrf_token csrf ≡ false
    → Refuses (validated state admin csrf body)
unfolding validated or_return
validated-Refuses state admin csrf body compares a other w =
    rw (validate-text_eq state.ct_eq admin.csrf_token csrf compares a) (rw other refl)
