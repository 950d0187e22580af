-- ===== src/AuditQueries/Clause.antt =====
-- src/db/audit.rs: the WHERE clause of a filter, its placeholders, and the rows that it selects.
use mathlib.Core.Bool.{and-true}
use matrix_identity_admin.Prelude.{
  ℕ, List, [], ◌∷◌, ◌++◌, map, map-append, length-map, Option, none, some, Bool, true, ◌&&◌, keep,
  keep_cong, is_some, length, ◌≡◌, refl, sym, ap, ◌∙◌, arith,
}
use matrix_identity_admin.Text.{Text, text_eq, codes, join}
use matrix_identity_admin.InviteEmail.{count}
use matrix_identity_admin.InviteEmail.Valid.{count-append}
use matrix_identity_admin.Models.Audit.{AuditLog}
use matrix_identity_admin.Effects.Database.{Database}
use matrix_identity_admin.AuditQueries.{
  AuditFilter, Condition, condition_text, clause_text, bound, condition_of, value_of, as_given,
  end_of_day, conditions, build_where_clause, text_le, words, column, compares, holds, clause_holds,
  satisfies, selected,
}

-- The number of placeholders in a text.
abbrev pub placeholders : Text → ℕ
placeholders = count 63

one_placeholder : (c : Condition) → placeholders (condition_text c) ≡ 1
unfolding count condition_text codes
one_placeholder Condition.action_is = refl
one_placeholder Condition.result_is = refl
one_placeholder Condition.admin_is = refl
one_placeholder Condition.from_is = refl
one_placeholder Condition.to_is = refl

no_placeholder : (placeholders (codes " AND ") ≡ 0) × (placeholders (codes "WHERE ") ≡ 0)
unfolding count codes
no_placeholder = (refl, refl)

placeholders-join :
    (cs : List Condition) → placeholders (join (codes " AND ") (map condition_text cs)) ≡ length cs
unfolding join
placeholders-join [] = unfold count in refl
placeholders-join (c ∷ []) = one_placeholder c
placeholders-join (c ∷ d ∷ cs) = omega (
  arith,
  count-append 63 (condition_text c)
      (codes " AND " ++ join (codes " AND ") (map condition_text (d ∷ cs))),
  count-append 63 (codes " AND ") (join (codes " AND ") (map condition_text (d ∷ cs))),
  no_placeholder,
  one_placeholder c,
  placeholders-join (d ∷ cs),
)

placeholders-clause_text : (cs : List Condition) → placeholders (clause_text cs) ≡ length cs
unfolding clause_text
placeholders-clause_text [] = unfold count in refl
placeholders-clause_text (c ∷ cs) = omega (
  arith,
  count-append 63 (codes "WHERE ") (join (codes " AND ") (map condition_text (c ∷ cs))),
  no_placeholder,
  placeholders-join (c ∷ cs),
)

-- Filters that give the same fields, whatever their values.
abbrev pub SameFields : AuditFilter → AuditFilter → Type 0
SameFields f g =
    (is_some f.action ≡ is_some g.action)
    × (is_some f.result ≡ is_some g.result)
    × (is_some f.admin_username ≡ is_some g.admin_username)
    × (is_some f.from ≡ is_some g.from)
    × (is_some f.to ≡ is_some g.to)

same_conditions :
    (c : Condition) (e : Text → Text) (a b : Option Text)
    → is_some a ≡ is_some b
    → map condition_of (bound c e a) ≡ map condition_of (bound c e b)
same_conditions c e none none h = refl
same_conditions c e (some x) (some y) h = refl
same_conditions c e none (some y) h = ground (arith, h)
same_conditions c e (some x) none h = ground (arith, h)

same_append :
    (us bs xs ys : List (Condition × Text))
    → map condition_of us ≡ map condition_of bs
    → map condition_of xs ≡ map condition_of ys
    → map condition_of (us ++ xs) ≡ map condition_of (bs ++ ys)
same_append us bs xs ys h k =
    rw (map-append condition_of us xs) (rw (map-append condition_of bs ys) (rw h (rw k refl)))

conditions-SameFields :
    (f g : AuditFilter)
    → SameFields f g
    → map condition_of (conditions f) ≡ map condition_of (conditions g)
unfolding conditions
conditions-SameFields f g (a, r, n, s, t) =
    same_append _ _ _ _ (same_conditions Condition.action_is as_given f.action g.action a) (
      same_append _ _ _ _ (same_conditions Condition.result_is as_given f.result g.result r) (
        same_append _ _ _ _
          (same_conditions Condition.admin_is as_given f.admin_username g.admin_username n)
          (same_append _ _ _ _ (same_conditions Condition.from_is as_given f.from g.from s)
            (same_conditions Condition.to_is end_of_day f.to g.to t))))

-- If two filters give the same fields, then their WHERE clauses are the same text, whatever the
-- values are; and the clause of a filter has one placeholder for each value that is bound to it.
pub build_where_clause-Parametrised :
    (f g : AuditFilter)
    → SameFields f g
    → ((build_where_clause f).0 ≡ (build_where_clause g).0)
      × (placeholders (build_where_clause f).0 ≡ length (build_where_clause f).1)
unfolding build_where_clause
build_where_clause-Parametrised f g h = (
  ap clause_text (conditions-SameFields f g h),
  placeholders-clause_text (map condition_of (conditions f))
      ∙ length-map condition_of (conditions f)
      ∙ sym (length-map value_of (conditions f)),
)

-- A field that is not given asks for nothing.
abbrev pub if_given : Option Text → (Text → Bool) → Bool
if_given none test = true
if_given (some value) test = test value

-- What a filter asks of a row.
abbrev pub matches : AuditFilter → AuditLog → Bool
matches f row =
    if_given f.action (λ v. text_eq row.action v)
    && (if_given f.result (λ v. text_eq row.result v)
        && (if_given f.admin_username (λ v. text_eq row.admin_username v)
            && (if_given f.from (λ v. text_le v row.timestamp)
                && if_given f.to (λ v. text_le row.timestamp (end_of_day v)))))

-- All conditions, each with its value.
abbrev satisfies_all : AuditLog → List (Condition × Text) → Bool
satisfies_all row [] = true
satisfies_all row ((c, value) ∷ rest) = satisfies row c value && satisfies_all row rest

satisfies_all-append :
    (row : AuditLog) (xs ys : List (Condition × Text))
    → satisfies_all row (xs ++ ys) ≡ (satisfies_all row xs && satisfies_all row ys)
satisfies_all-append row [] ys = refl
satisfies_all-append row ((c, v) ∷ xs) ys = ground (arith, satisfies_all-append row xs ys)

satisfies_all-bound :
    (row : AuditLog) (c : Condition) (f : Text → Text) (o : Option Text)
    → satisfies_all row (bound c f o) ≡ if_given o (λ v. satisfies row c (f v))
satisfies_all-bound row c f none = refl
satisfies_all-bound row c f (some v) = ground arith

both :
    (row : AuditLog) (xs ys : List (Condition × Text)) (p q : Bool)
    → satisfies_all row xs ≡ p
    → satisfies_all row ys ≡ q
    → satisfies_all row (xs ++ ys) ≡ (p && q)
both row xs ys p q h k = rw (satisfies_all-append row xs ys) (rw h (rw k refl))

-- What the text of each condition asks.
abbrev asks : AuditLog → Condition → Text → Bool
asks row Condition.action_is v = text_eq row.action v
asks row Condition.result_is v = text_eq row.result v
asks row Condition.admin_is v = text_eq row.admin_username v
asks row Condition.from_is v = text_le v row.timestamp
asks row Condition.to_is v = text_le row.timestamp v

pub satisfies-asks : (row : AuditLog) (c : Condition) (v : Text) → satisfies row c v ≡ asks row c v
unfolding satisfies holds words condition_text codes column compares text_eq
satisfies-asks row Condition.action_is v = refl
satisfies-asks row Condition.result_is v = refl
satisfies-asks row Condition.admin_is v = refl
satisfies-asks row Condition.from_is v = refl
satisfies-asks row Condition.to_is v = refl

-- The first condition of a clause that goes on.
holds-first :
    (row : AuditLog) (c : Condition) (more : Text) (value next : Text) (values : List Text)
    → holds row (words (condition_text c ++ (codes " AND " ++ more))) (value ∷ next ∷ values)
      ≡ (asks row c value && holds row (words more) (next ∷ values))
unfolding holds words condition_text codes column compares text_eq
holds-first row Condition.action_is more value next values = refl
holds-first row Condition.result_is more value next values = refl
holds-first row Condition.admin_is more value next values = refl
holds-first row Condition.from_is more value next values = refl
holds-first row Condition.to_is more value next values = refl

-- The text of the joined conditions asks for each of them.
holds-join :
    (row : AuditLog) (c : Condition) (v : Text) (cs : List (Condition × Text))
    → holds row
        (words (join (codes " AND ") (map condition_text (c ∷ map condition_of cs))))
        (v ∷ map value_of cs)
      ≡ satisfies_all row ((c, v) ∷ cs)
unfolding join
holds-join row c v [] = unfold satisfies in sym (and-true (satisfies row c v))
holds-join row c v ((d, u) ∷ cs) =
    holds-first row c _ v u (map value_of cs)
    ∙ ap (λ b. asks row c v && b) (holds-join row d u cs)
    ∙ ap (λ b. b && satisfies_all row ((d, u) ∷ cs)) (sym (satisfies-asks row c v))

clause_holds-satisfies_all :
    (row : AuditLog) (cs : List (Condition × Text))
    → clause_holds row (clause_text (map condition_of cs)) (map value_of cs) ≡ satisfies_all row cs
unfolding clause_text clause_holds
clause_holds-satisfies_all row [] = refl
clause_holds-satisfies_all row ((c, v) ∷ cs) = unfold words codes text_eq in holds-join row c v cs

satisfies_all-conditions :
    (row : AuditLog) (f : AuditFilter) → satisfies_all row (conditions f) ≡ matches f row
unfolding conditions
satisfies_all-conditions row f = both row _ _ _ _ (one Condition.action_is as_given f.action) (
    both row _ _ _ _ (one Condition.result_is as_given f.result) (
      both row _ _ _ _ (one Condition.admin_is as_given f.admin_username) (
        both row _ _ _ _ (one Condition.from_is as_given f.from)
          (one Condition.to_is end_of_day f.to))))
  where
    one :
        (c : Condition) (g : Text → Text) (o : Option Text)
        → satisfies_all row (bound c g o) ≡ if_given o (λ v. asks row c (g v))
    one c g none = refl
    one c g (some v) = satisfies_all-bound row c g (some v) ∙ satisfies-asks row c (g v)

-- The rows that the text of a filter's WHERE clause selects, with its values bound to the
-- placeholders in their order, are the rows whose action, result and administrator are the given
-- ones and whose timestamp is neither before the given first day nor
-- after the last second of the given last day, each as far as it is given, in their order.
pub selected-matches :
    (f : AuditFilter) (db : Database) → selected f db ≡ keep (matches f) db.audit_logs
unfolding selected build_where_clause
selected-matches f db =
    keep_cong
      (λ row.
        clause_holds row (clause_text (map condition_of (conditions f)))
          (map value_of (conditions f)))
      (matches f)
      (λ row. clause_holds-satisfies_all row (conditions f) ∙ satisfies_all-conditions row f)
      db.audit_logs
