-- ===== src/PolicyService/Rows.antt =====
-- src/db/policy.rs: the constraints of the table of policy bindings.
use matrix_identity_admin.Prelude.{
  any-append, List, [], ◌∷◌, ◌++◌, map, Option, Bool, true, false, not, ◌&&◌, any, keep, ◌≡◌, refl,
  arith, Bool-cases, inl, inr,
}
use matrix_identity_admin.Text.{Text, ℤ}
use matrix_identity_admin.Effects.Database.{Database, BindingRow}
use matrix_identity_admin.PolicyTables.{clash, same_key, has_valid_types, inserted, revised}

-- No two rows of the table clash, and each satisfies the CHECK constraints.
abbrev pub distinct : List BindingRow → Bool
distinct [] = true
distinct (x ∷ xs) = has_valid_types x && (not (any (clash x) xs) && distinct xs)

pub distinct-append :
    (rows : List BindingRow) (row : BindingRow)
    → distinct rows ≡ true
    → has_valid_types row ≡ true
    → any (λ r. clash r row) rows ≡ false
    → distinct (rows ++ row ∷ []) ≡ true
distinct-append [] row d v h = ground (arith, v)
distinct-append (x ∷ xs) row d v h =
    ground (arith, d, h, v, distinct-append xs row, any-append (clash x) xs (row ∷ []))

clash-revised :
    (id : Text) (level : Option ℤ) (remove : Bool) (now : Text) (a b : BindingRow)
    → clash (revised id level remove now a) (revised id level remove now b) ≡ clash a b
unfolding revised clash same_key
clash-revised id level remove now a b = ground arith

has_valid_types-revised :
    (id : Text) (level : Option ℤ) (remove : Bool) (now : Text) (a : BindingRow)
    → has_valid_types (revised id level remove now a) ≡ has_valid_types a
unfolding revised has_valid_types
has_valid_types-revised id level remove now a = ground arith

any-revised :
    (id : Text) (level : Option ℤ) (remove : Bool) (now : Text) (a : BindingRow)
    (rows : List BindingRow)
    → any (clash (revised id level remove now a)) (map (revised id level remove now) rows)
      ≡ any (clash a) rows
any-revised id level remove now a [] = refl
any-revised id level remove now a (r ∷ rows) =
    ground (arith, clash-revised id level remove now a r, any-revised id level remove now a rows)

pub distinct-revised :
    (id : Text) (level : Option ℤ) (remove : Bool) (now : Text) (rows : List BindingRow)
    → distinct (map (revised id level remove now) rows) ≡ distinct rows
distinct-revised id level remove now [] = refl
distinct-revised id level remove now (r ∷ rows) = ground (
  arith,
  has_valid_types-revised id level remove now r,
  any-revised id level remove now r rows,
  distinct-revised id level remove now rows,
)

any-keep :
    (p q : BindingRow → Bool) (rows : List BindingRow)
    → any p rows ≡ false
    → any p (keep q rows) ≡ false
any-keep p q [] h = refl
any-keep p q (r ∷ rows) h = ground (arith, h, any-keep p q rows)

pub distinct-keep :
    (q : BindingRow → Bool) (rows : List BindingRow)
    → distinct rows ≡ true
    → distinct (keep q rows) ≡ true
distinct-keep q [] d = refl
distinct-keep q (r ∷ rows) d = ground (arith, d, any-keep (clash r) q rows, distinct-keep q rows)

pub distinct-inserted :
    (message : Text) (row : BindingRow) (db : Database)
    → distinct db.policy_bindings ≡ true
    → distinct (inserted message row db).1.policy_bindings ≡ true
unfolding inserted
distinct-inserted message row db d =
    elim (Bool-cases (has_valid_types row && not (any (λ r. clash r row) db.policy_bindings))) [
      | inl h ↦
          rw h (distinct-append db.policy_bindings row d (ground (arith, h)) (ground (arith, h)))
      | inr h ↦ rw h d
    ]
