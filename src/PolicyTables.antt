-- ===== src/PolicyTables.antt =====
-- src/db/policy.rs: the statements on the policy tables of migrations/0002. Of SQLite, a parameter
-- says which statement fails, and with which error; what a statement does to the rows, and the
-- constraints of the tables, are written out. BINARY collation compares code points.
use Prim.Native.Nat.{compare, Ordering}
use matrix_identity_admin.Prelude.{
  List, [], ◌∷◌, ◌++◌, map, Option, none, some, Bool, not, ◌&&◌, ◌||◌, any, keep, is_some,
  if◌then◌else◌,
}
use matrix_identity_admin.Text.{Text, codes, text_eq, ℤ}
use matrix_identity_admin.Models.Error.{AppError, Result, Done, ok, err}
use matrix_identity_admin.Models.Policy.{PolicySubject, PolicyTarget, PolicyBinding, CachedRoom}
use matrix_identity_admin.Effects.Database.{Database, BindingRow}
use matrix_identity_admin.Effects.Exec.{Exec}

pub record Sqlite (W : Type 0) : Type 0 where
  pub failure : W → Option Text × W
  pub constraint_failed : Text

unfoldable pub attempt :
    {A : Type 0} → Option Text → (Database → Result A × Database) → Database → Result A × Database
attempt (some message) f db = (err (AppError.database message), db)
attempt none f db = f db

-- A statement either fails or does what it says.
unfoldable pub statement :
    {W A : Type 0} → Sqlite W → (Database → Result A × Database) → Exec W (Result A)
statement sqlite f w =
    let (failure, u) = sqlite.failure w.upstream in
    let (r, db) = attempt failure f w.db in
    record { value = r; world = record { upstream = u; db = db }; events = [] }

unfoldable pub subject_of_row : BindingRow → PolicySubject
subject_of_row r =
    if text_eq r.subject_type (codes "role")
    then PolicySubject.role r.subject_value
    else PolicySubject.group r.subject_value

unfoldable pub target_of_row : BindingRow → PolicyTarget
target_of_row r =
    if text_eq r.target_type (codes "space")
    then PolicyTarget.space r.target_room_id
    else PolicyTarget.room r.target_room_id

-- `From<BindingRow>`
unfoldable pub binding_of_row : BindingRow → PolicyBinding
binding_of_row r = record {
  id = r.id;
  subject = subject_of_row r;
  target = target_of_row r;
  power_level = r.power_level;
  allow_remove = r.allow_remove;
  created_at = r.created_at;
  updated_at = r.updated_at;
}

-- The order of two texts, and the second of two keys if the first does not decide.
unfoldable pub text_compare : Text → Text → Ordering
text_compare [] [] = Ordering.eq
text_compare [] (y ∷ ys) = Ordering.lt
text_compare (x ∷ xs) [] = Ordering.gt
text_compare (x ∷ xs) (y ∷ ys) =
    let rest = text_compare xs ys in
    elim (compare x y) [
      | Ordering.eq ↦ rest
      | Ordering.lt ↦ Ordering.lt
      | Ordering.gt ↦ Ordering.gt
    ]

abbrev pub and_then : Ordering → Ordering → Ordering
and_then Ordering.eq b = b
and_then a b = a

unfoldable pub place {ℓ} : {A : Type ℓ} → (A → A → Ordering) → A → List A → List A
place order x [] = x ∷ []
place order x (y ∷ ys) =
    let rest = place order x ys in elim (order x y) [ Ordering.gt ↦ y ∷ rest | _ ↦ x ∷ y ∷ ys ]

-- ORDER BY
unfoldable pub sorted_by {ℓ} : {A : Type ℓ} → (A → A → Ordering) → List A → List A
sorted_by order [] = []
sorted_by order (x ∷ xs) = place order x (sorted_by order xs)

abbrev pub binding_order : BindingRow → BindingRow → Ordering
binding_order a b = and_then (text_compare a.subject_type b.subject_type) (
    and_then (text_compare a.subject_value b.subject_value)
      (text_compare a.target_room_id b.target_room_id))

-- COALESCE(name, 'zzz')
abbrev pub shown_name : CachedRoom → Text
shown_name r = elim r.name [ some n ↦ n | none ↦ codes "zzz" ]

abbrev pub room_order : CachedRoom → CachedRoom → Ordering
room_order a b =
    and_then (text_compare (shown_name a) (shown_name b)) (text_compare a.room_id b.room_id)

-- UNIQUE (subject_type, subject_value, target_room_id)
unfoldable pub same_key : BindingRow → BindingRow → Bool
same_key a b =
    text_eq a.subject_type b.subject_type
    && (text_eq a.subject_value b.subject_value && text_eq a.target_room_id b.target_room_id)

-- Two rows that cannot both be in the table.
unfoldable pub clash : BindingRow → BindingRow → Bool
clash a b = text_eq a.id b.id || same_key a b

-- The CHECK constraints.
unfoldable pub has_valid_types : BindingRow → Bool
has_valid_types r =
    (text_eq r.subject_type (codes "group") || text_eq r.subject_type (codes "role"))
    && (text_eq r.target_type (codes "room") || text_eq r.target_type (codes "space"))

-- The constraints of the table, for one row more.
abbrev pub admits : BindingRow → Database → Bool
admits row db = has_valid_types row && not (any (λ r. clash r row) db.policy_bindings)

-- INSERT INTO policy_bindings, which a violated constraint refuses.
unfoldable pub inserted : Text → BindingRow → Database → Done × Database
inserted message row db =
    if admits row db
    then (ok tt, record db { policy_bindings = db.policy_bindings ++ row ∷ [] })
    else (err (AppError.database message), db)

unfoldable pub revised : Text → Option ℤ → Bool → Text → BindingRow → BindingRow
revised id power_level allow_remove now row =
    if text_eq row.id id
    then record row { power_level = power_level; allow_remove = allow_remove; updated_at = now }
    else row

abbrev pub has_id : Text → BindingRow → Bool
has_id id row = text_eq row.id id

-- The cached room of the same id is replaced, or the room is added.
unfoldable pub upserted : CachedRoom → List CachedRoom → List CachedRoom
upserted room [] = room ∷ []
upserted room (r ∷ rest) =
    let more = upserted room rest in
    if text_eq r.room_id room.room_id then room ∷ rest else r ∷ more

module _ {W : Type 0} (sqlite : Sqlite W) where
  unfoldable pub select_bindings : Exec W (Result (List PolicyBinding))
  select_bindings =
      statement sqlite
        λ db. (ok (map binding_of_row (sorted_by binding_order db.policy_bindings)), db)

  unfoldable pub insert_binding : BindingRow → Exec W Done
  insert_binding row = statement sqlite (inserted sqlite.constraint_failed row)

  unfoldable pub revise_binding : Text → Option ℤ → Bool → Text → Exec W (Result Bool)
  revise_binding id power_level allow_remove now = statement sqlite λ db. (
    ok (any (has_id id) db.policy_bindings),
    record db {
      policy_bindings = map (revised id power_level allow_remove now) db.policy_bindings;
    },
  )

  unfoldable pub remove_binding : Text → Exec W (Result Bool)
  remove_binding id = statement sqlite λ db. (
    ok (any (has_id id) db.policy_bindings),
    record db { policy_bindings = keep (λ r. not (has_id id r)) db.policy_bindings },
  )

  unfoldable pub has_bootstrapped : Exec W (Result Bool)
  has_bootstrapped = statement sqlite λ db. (ok (is_some db.policy_bootstrap_state), db)

  unfoldable pub mark_bootstrapped : Text → Text → Exec W Done
  mark_bootstrapped source now = statement sqlite λ db. (
    ok tt,
    record db {
      policy_bootstrap_state = some (record { bootstrap_source = source; bootstrapped_at = now });
    },
  )

  unfoldable pub upsert_cached_room : CachedRoom → Exec W Done
  upsert_cached_room room =
      statement sqlite
        λ db. (ok tt, record db { policy_targets_cache = upserted room db.policy_targets_cache })

  unfoldable pub select_cached_rooms : Exec W (Result (List CachedRoom))
  select_cached_rooms =
      statement sqlite λ db. (ok (sorted_by room_order db.policy_targets_cache), db)
