-- ===== src/InviteEmail/Valid.antt =====
-- src/services/invite_user.rs: the addresses that pass the validation, and their parts.
use matrix_identity_admin.Prelude.{
  ℕ, ◌+◌, ◌≤◌, List, [], ◌∷◌, ◌&&◌, ◌++◌, Option, none, some, true, false, ◌||◌, ltb, leb, ◌==◌,
  all, is_empty, ◌≡◌, refl, ap, arith, Bool-cases, inl, inr,
}
use matrix_identity_admin.Text.{Text, codes}
use matrix_identity_admin.Models.Error.{Result, ok, err}
use matrix_identity_admin.InviteEmail.{
  ValidatedInviteEmail, byte_len, count, prepend, split_once, extend_first, split, is_email_char,
  is_label_char, is_valid_label, is_valid_email_localpart, is_valid_email_domain, is_bad_pair,
  validate_parts, validate_invite_email,
}

abbrev pub Splits : Text → Option (Text × Text) → Type 0
Splits t none = Unit
Splits t (some (a, b)) = a ++ 64 ∷ b ≡ t

prepend-Splits :
    (d : ℕ) (ds : Text) (r : Option (Text × Text)) → Splits ds r → Splits (d ∷ ds) (prepend d r)
prepend-Splits d ds none h = tt
prepend-Splits d ds (some (a, b)) h = ap (λ t. d ∷ t) h

split_once-Splits : (t : Text) → Splits t (split_once 64 t)
unfolding split_once
split_once-Splits [] = tt
split_once-Splits (d ∷ ds) = elim (Bool-cases (d == 64)) [
  | inl h ↦ rw h (ap (λ c. c ∷ ds) (ground (arith, h)))
  | inr h ↦ rw h (prepend-Splits d ds (split_once 64 ds) (split_once-Splits ds))
]

count_none : (t : Text) → all is_email_char t ≡ true → count 64 t ≡ 0
unfolding count is_email_char codes
count_none [] h = refl
count_none (c ∷ cs) h = ground (arith, h, count_none cs)

pub count-append : (c : ℕ) (s t : Text) → count c (s ++ t) ≡ count c s + count c t
unfolding count
count-append c [] t = omega arith
count-append c (d ∷ ds) t = ground (arith, count-append c ds t)

split_once-append :
    (local domain : Text)
    → count 64 local ≡ 0
    → split_once 64 (local ++ 64 ∷ domain) ≡ some (local, domain)
unfolding split_once count
split_once-append [] domain h = refl
split_once-append (c ∷ cs) domain h = elim (Bool-cases (c == 64)) [
  | inl e ↦ absurd (ground (arith, e, h))
  | inr e ↦ rw e (ap (prepend c) (split_once-append cs domain (ground (arith, e, h))))
]

local_chars :
    (local : Text) → is_valid_email_localpart local ≡ true → all is_email_char local ≡ true
unfolding is_valid_email_localpart
local_chars local h = ground (arith, h)

label_chars : (label : Text) → is_valid_label label ≡ true → all is_label_char label ≡ true
unfolding is_valid_label
label_chars label h = ground (arith, h)

labels_chars :
    (labels : List Text)
    → all is_valid_label labels ≡ true
    → all (λ l. all is_label_char l) labels ≡ true
labels_chars [] h = refl
labels_chars (l ∷ ls) h = ground (arith, h, label_chars l, labels_chars ls)

all-extend_first :
    (c : ℕ) (labels : List Text)
    → all (λ l. all is_label_char l) (extend_first c labels)
      ≡ (is_label_char c && all (λ l. all is_label_char l) labels)
all-extend_first c [] = ground arith
all-extend_first c (l ∷ ls) = ground arith

-- The labels of a domain have no @.
no_at_in : (t : Text) → all (λ l. all is_label_char l) (split t) ≡ true → count 64 t ≡ 0
unfolding split count
no_at_in [] h = refl
no_at_in (c ∷ cs) h = elim (Bool-cases (c == 46)) [
  | inl e ↦ ground (arith, e, h, no_at_in cs)
  | inr e ↦ ground (arith, e, h, no_at_in cs, all-extend_first c (split cs))
]

domain_labels :
    (domain : Text) → is_valid_email_domain domain ≡ true → all is_valid_label (split domain) ≡ true
unfolding is_valid_email_domain
domain_labels domain h = ground (arith, h)

domain_no_at : (domain : Text) → is_valid_email_domain domain ≡ true → count 64 domain ≡ 0
domain_no_at domain h = no_at_in domain (labels_chars (split domain) (domain_labels domain h))

domain_not_empty : (domain : Text) → is_valid_email_domain domain ≡ true → is_empty domain ≡ false
unfolding is_valid_email_domain split is_valid_label
domain_not_empty [] h = ground (arith, h)
domain_not_empty (c ∷ cs) h = refl

good_pair :
    (local domain : Text)
    → is_empty local ≡ false
    → is_valid_email_localpart local ≡ true
    → is_valid_email_domain domain ≡ true
    → byte_len local ≤ 64
    → byte_len domain ≤ 253
    → is_bad_pair local domain ≡ false
unfolding is_bad_pair
good_pair local domain some_local l d ll dl =
    ground (arith, some_local, l, d, domain_not_empty domain d)

is_empty_no : (local domain : Text) → is_empty (local ++ 64 ∷ domain) ≡ false
is_empty_no [] domain = refl
is_empty_no (c ∷ cs) domain = refl

one_at :
    (local domain : Text)
    → count 64 local ≡ 0
    → count 64 domain ≡ 0
    → (count 64 (local ++ 64 ∷ domain) == 1) ≡ true
unfolding count
one_at local domain h k = ground (arith, h, k, count-append 64 local (64 ∷ domain), count_at domain)
  where
    count_at : (t : Text) → count 64 (64 ∷ t) ≡ 1 + count 64 t
    count_at t = refl

-- What a validated address is.
abbrev pub Validated : Text → Result ValidatedInviteEmail → Type 0
Validated email (err e) = Unit
Validated email (ok v) =
    (v.email ≡ email)
    × (v.local ++ 64 ∷ v.domain ≡ email)
    × (is_valid_email_localpart v.local ≡ true)
    × (is_valid_email_domain v.domain ≡ true)
    × (leb (byte_len v.local) 64 ≡ true)
    × (leb (byte_len v.domain) 253 ≡ true)
    × (leb (byte_len v.email) 254 ≡ true)

validate_parts-Validated :
    (email : Text) (parts : Option (Text × Text))
    → Splits email parts
    → ltb 254 (byte_len email) ≡ false
    → Validated email (validate_parts email parts)
unfolding validate_parts is_bad_pair
validate_parts-Validated email none h k = tt
validate_parts-Validated email (some (local, domain)) h k =
    elim (Bool-cases (is_bad_pair local domain)) [
      | inl bad ↦ rw bad tt
      | inr good ↦ rw good (
        refl,
        h,
        ground (arith, good),
        ground (arith, good),
        ground (arith, good),
        ground (arith, good),
        ground (arith, k),
      )
    ]

module _ (normalise : Text → Text) where
  -- An address that `validate_invite_email` accepts is the trimmed and lowercased input, its parts
  -- joined by an @ are the address, both parts are valid, and the lengths in bytes are at most 64
  -- for the local part, 253 for the domain and 254 for the whole.
  pub validate_invite_email-Validated :
      (raw_email : Text)
      → Validated (normalise raw_email) (validate_invite_email normalise raw_email)
  unfolding validate_invite_email
  validate_invite_email-Validated raw_email =
      let email = normalise raw_email in
      elim (Bool-cases (is_empty email || ltb 254 (byte_len email))) [
        | inl bad ↦ rw bad tt
        | inr good ↦ rw good (elim (Bool-cases (count 64 email == 1)) [
          | inl one ↦
              rw one
                (validate_parts-Validated email _ (split_once-Splits email) (ground (arith, good)))
          | inr other ↦ rw other tt
        ])
      ]

  -- If the trimmed and lowercased input is a local part, an @ and a domain, both valid, the local
  -- part not empty and of at most 64 bytes, the domain of at most 253 bytes, and the whole of at
  -- most 254 bytes, then `validate_invite_email` accepts it and returns the two parts.
  pub validate_invite_email_accepts :
      (raw_email local domain : Text)
      → normalise raw_email ≡ local ++ 64 ∷ domain
      → is_empty local ≡ false
      → is_valid_email_localpart local ≡ true
      → is_valid_email_domain domain ≡ true
      → byte_len local ≤ 64
      → byte_len domain ≤ 253
      → byte_len (local ++ 64 ∷ domain) ≤ 254
      → validate_invite_email normalise raw_email
        ≡ ok (record { email = local ++ 64 ∷ domain; local = local; domain = domain })
  unfolding validate_invite_email validate_parts
  validate_invite_email_accepts raw_email local domain e some_local l d ll dl short =
      let none_local = count_none local (local_chars local l) in
      rw e (
        rw (is_empty_no local domain) (
          rw (not_long (byte_len (local ++ 64 ∷ domain)) short) (
            rw (one_at local domain none_local (domain_no_at domain d)) (
              rw (split_once-append local domain none_local)
                (rw (good_pair local domain some_local l d ll dl) refl)))))
    where
      not_long : (n : ℕ) → n ≤ 254 → ltb 254 n ≡ false
      not_long n h = ground arith
