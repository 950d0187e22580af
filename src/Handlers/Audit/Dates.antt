-- ===== src/Handlers/Audit/Dates.antt =====
-- src/handlers/audit.rs and src/db/audit.rs: the dates that a filter takes, and the days they
-- select.
use matrix_identity_admin.Prelude.{
  ℕ, List, [], ◌∷◌, ◌++◌, Bool, true, false, ◌&&◌, ◌==◌, all, length, if◌then◌else◌, Bool-cases,
  inl, inr, ◌≡◌, refl, sym, append-nil, ap, ◌∙◌, arith,
}
use matrix_identity_admin.Text.{Text, codes}
use matrix_identity_admin.Utf8.{utf8, is_ascii, utf8-ascii, ascii-utf8}
use matrix_identity_admin.Models.Error.{AppError, ok, err}
use matrix_identity_admin.Models.Accounts.{is_digit}
use matrix_identity_admin.AuditQueries.{Condition, satisfies, take, drop, text_le, end_of_day}
use matrix_identity_admin.AuditQueries.Clause.{satisfies-asks}
use matrix_identity_admin.Models.Audit.{AuditLog}
use matrix_identity_admin.PolicyTables.{text_compare, and_then}
use matrix_identity_admin.Handlers.Audit.{is_date_bytes, validate_date_format}

-- dddd-dd-dd
abbrev pub has_date_shape : Text → Bool
has_date_shape (a ∷ b ∷ c ∷ d ∷ x ∷ e ∷ f ∷ y ∷ g ∷ h ∷ []) =
    x == 45 && (y == 45 && all is_digit (a ∷ b ∷ c ∷ d ∷ e ∷ f ∷ g ∷ h ∷ []))
has_date_shape _ = false

is_date_bytes-shape : (b : List ℕ) → is_date_bytes b ≡ has_date_shape b
unfolding is_date_bytes take drop
is_date_bytes-shape [] = refl
is_date_bytes-shape (a ∷ []) = refl
is_date_bytes-shape (a ∷ b ∷ []) = refl
is_date_bytes-shape (a ∷ b ∷ c ∷ []) = refl
is_date_bytes-shape (a ∷ b ∷ c ∷ d ∷ []) = refl
is_date_bytes-shape (a ∷ b ∷ c ∷ d ∷ x ∷ []) = refl
is_date_bytes-shape (a ∷ b ∷ c ∷ d ∷ x ∷ e ∷ []) = refl
is_date_bytes-shape (a ∷ b ∷ c ∷ d ∷ x ∷ e ∷ f ∷ []) = refl
is_date_bytes-shape (a ∷ b ∷ c ∷ d ∷ x ∷ e ∷ f ∷ y ∷ []) = refl
is_date_bytes-shape (a ∷ b ∷ c ∷ d ∷ x ∷ e ∷ f ∷ y ∷ g ∷ []) = refl
is_date_bytes-shape (a ∷ b ∷ c ∷ d ∷ x ∷ e ∷ f ∷ y ∷ g ∷ h ∷ []) = ground arith
is_date_bytes-shape (a ∷ b ∷ c ∷ d ∷ x ∷ e ∷ f ∷ y ∷ g ∷ h ∷ i ∷ rest) = ground arith

shape-ascii : (t : Text) → has_date_shape t ≡ true → all is_ascii t ≡ true
shape-ascii (a ∷ b ∷ c ∷ d ∷ x ∷ e ∷ f ∷ y ∷ g ∷ i ∷ []) h = ground (arith, h)
shape-ascii _ h = ground (arith, h)

has_date_shape-utf8 : (t : Text) → has_date_shape (utf8 t) ≡ has_date_shape t
has_date_shape-utf8 t = elim (Bool-cases (all is_ascii t)) [
  | inl a ↦ ap has_date_shape (utf8-ascii t a)
  | inr n ↦ elim (Bool-cases (has_date_shape t)) [
    | inl s ↦ absurd (ground (arith, n, s, shape-ascii t s))
    | inr s ↦ elim (Bool-cases (has_date_shape (utf8 t))) [
      | inl u ↦ absurd (ground (arith, n, ascii-utf8 t (shape-ascii (utf8 t) u)))
      | inr u ↦ u ∙ sym s
    ]
  ]
]

-- `validate_date_format` accepts exactly the texts of ten characters that are four digits, a
-- hyphen, two digits, a hyphen and two digits, of all texts, those with characters outside ASCII
-- included; every other text gives the validation error.
pub validate_date_format-has_date_shape :
    (s : Text)
    → validate_date_format s ≡ (
        if has_date_shape s
        then ok tt
        else err (AppError.validation (codes "Invalid date format, expected YYYY-MM-DD")))
unfolding validate_date_format
validate_date_format-has_date_shape s =
    rw (is_date_bytes-shape (utf8 s)) (rw (has_date_shape-utf8 s) refl)

date_length : (s : Text) → has_date_shape s ≡ true → length s ≡ 10
date_length (a ∷ b ∷ c ∷ d ∷ x ∷ e ∷ f ∷ y ∷ g ∷ i ∷ []) h = omega arith
date_length _ h = ground (arith, h)

text_compare-append :
    (a b x y : Text)
    → length a ≡ length b
    → text_compare (a ++ x) (b ++ y) ≡ and_then (text_compare a b) (text_compare x y)
unfolding text_compare
text_compare-append [] [] x y h = refl
text_compare-append [] (d ∷ ds) x y h = ground (arith, h)
text_compare-append (c ∷ cs) [] x y h = ground (arith, h)
text_compare-append (c ∷ cs) (d ∷ ds) x y h =
    ground (arith, text_compare-append cs ds x y (omega (arith, h)))

is_valid_date : (s : Text) → validate_date_format s ≡ ok tt → has_date_shape s ≡ true
is_valid_date s h = elim (Bool-cases (has_date_shape s)) [
  | inl a ↦ a
  | inr a ↦ absurd (ground (arith, a, h, validate_date_format-has_date_shape s))
]

text_le-append :
    (a b x y : Text)
    → length a ≡ length b
    → text_le x y ≡ true
    → text_le (a ++ x) (b ++ y) ≡ text_le a b
text_le-append a b x y h k = ground (arith, k, text_compare-append a b x y h)

text_le-nil : (x : Text) → text_le [] x ≡ true
unfolding text_compare
text_le-nil [] = refl
text_le-nil (c ∷ cs) = refl

text_le-longer : (a b x : Text) → length a ≡ length b → text_le a (b ++ x) ≡ text_le a b
text_le-longer a b x h =
    ap (λ t. text_le t (b ++ x)) (sym (append-nil a)) ∙ text_le-append a b [] x h (text_le-nil x)

-- Let the timestamp of a row be a day of ten characters followed by a time that is at most
-- T23:59:59Z. If `from` and `to` pass the date validation, then the row satisfies the condition on
-- `from` exactly if its day is not before `from`, and the condition on `to`, whose bound value is
-- the last second of the day, exactly if its day is not after `to`.
pub satisfies-day :
    (row : AuditLog) (day time from to : Text)
    → row.timestamp ≡ day ++ time
    → length day ≡ 10
    → text_le time (codes "T23:59:59Z") ≡ true
    → validate_date_format from ≡ ok tt
    → validate_date_format to ≡ ok tt
    → (satisfies row Condition.from_is from ≡ text_le from day)
      × (satisfies row Condition.to_is (end_of_day to) ≡ text_le day to)
unfolding end_of_day
satisfies-day row day time from to e l le hf ht = rw (satisfies-asks row Condition.from_is from) (
    rw (satisfies-asks row Condition.to_is (to ++ codes "T23:59:59Z")) (
      rw e (
        text_le-longer from day time (date_length from (is_valid_date from hf) ∙ sym l),
        text_le-append day to time (codes "T23:59:59Z")
            (l ∙ sym (date_length to (is_valid_date to ht))) le,
      )))
