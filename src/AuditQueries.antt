-- ===== src/AuditQueries.antt =====
-- The queries of src/db/audit.rs, which src/services/audit_service.rs passes on. The text of a
-- WHERE clause and its values are built as in the source, and what SQLite selects by them is read
-- off that text. Rows of one timestamp come in an order that SQLite does not promise: `arrange`,
-- which may differ from one statement to the next.
pub mod Clause
pub mod Pages
pub mod Ordered
use Prim.Native.Nat.{Ordering}
use matrix_identity_admin.Prelude.{
  ℕ, zero, suc, ◌+◌, List, [], ◌∷◌, ◌++◌, map, Option, none, some, Bool, true, false, not, ◌&&◌,
  ltb, ◌==◌, keep, is_empty, length, if◌then◌else◌,
}
use matrix_identity_admin.Text.{Text, codes, text_eq, contains, join}
use matrix_identity_admin.InviteEmail.{extend_first}
use matrix_identity_admin.Models.Error.{Result, ok}
use matrix_identity_admin.Models.Audit.{AuditLog}
use matrix_identity_admin.Effects.Database.{Database}
use matrix_identity_admin.Effects.Exec.{Exec, pure, ask, ◌>>=◌}
use matrix_identity_admin.PolicyTables.{Sqlite, statement, text_compare}

pub record AuditFilter : Type 0 where
  pub action : Option Text
  pub result : Option Text
  pub admin_username : Option Text
  pub from : Option Text
  pub to : Option Text

pub data Condition : Type 0 where
  action_is result_is admin_is from_is to_is : Condition

unfoldable pub condition_text : Condition → Text
condition_text Condition.action_is = codes "action = ?"
condition_text Condition.result_is = codes "result = ?"
condition_text Condition.admin_is = codes "admin_username = ?"
condition_text Condition.from_is = codes "timestamp >= ?"
condition_text Condition.to_is = codes "timestamp <= ?"

-- The last second of a day.
unfoldable pub end_of_day : Text → Text
end_of_day to = to ++ codes "T23:59:59Z"

abbrev pub bound : Condition → (Text → Text) → Option Text → List (Condition × Text)
bound condition f none = []
bound condition f (some value) = (condition, f value) ∷ []

abbrev as_given : Text → Text
as_given t = t

-- The conditions of a filter, each with the value bound to it.
unfoldable pub conditions : AuditFilter → List (Condition × Text)
conditions filter =
    bound Condition.action_is as_given filter.action
    ++ (bound Condition.result_is as_given filter.result
        ++ (bound Condition.admin_is as_given filter.admin_username
            ++ (bound Condition.from_is as_given filter.from
                ++ bound Condition.to_is end_of_day filter.to)))

abbrev pub condition_of : Condition × Text → Condition
condition_of c = c.0

abbrev pub value_of : Condition × Text → Text
value_of c = c.1

unfoldable pub clause_text : List Condition → Text
clause_text [] = []
clause_text (c ∷ cs) = codes "WHERE " ++ join (codes " AND ") (map condition_text (c ∷ cs))

unfoldable pub build_where_clause : AuditFilter → Text × List Text
build_where_clause filter =
    (clause_text (map condition_of (conditions filter)), map value_of (conditions filter))

-- `a <= b` on TEXT
abbrev pub text_le : Text → Text → Bool
text_le a b = elim (text_compare a b) [ Ordering.gt ↦ false | _ ↦ true ]

-- The words of a statement.
unfoldable pub words : Text → List Text
words [] = [] ∷ []
words (c ∷ cs) = let rest = words cs in if c == 32 then [] ∷ rest else extend_first c rest

-- The columns that a condition may name.
unfoldable pub column : Text → AuditLog → Option Text
column name row =
    if text_eq name (codes "action")
    then some row.action
    else if text_eq name (codes "result")
    then some row.result
    else if text_eq name (codes "admin_username")
    then some row.admin_username
    else if text_eq name (codes "timestamp")
    then some row.timestamp
    else none

-- The comparison operators of SQL, on TEXT.
unfoldable pub compares : Text → Text → Text → Bool
compares operator a b =
    if text_eq operator (codes "=")
    then text_eq a b
    else if text_eq operator (codes ">=")
    then text_le b a
    else if text_eq operator (codes "<=")
    then text_le a b
    else if text_eq operator (codes ">")
    then not (text_le a b)
    else if text_eq operator (codes "<")
    then not (text_le b a)
    else false

abbrev pub compare_column : Text → Option Text → Text → Bool
compare_column operator none value = false
compare_column operator (some a) value = compares operator a value

-- `column operator ?`, and the conditions joined by AND, with one value for each placeholder.
unfoldable pub holds : AuditLog → List Text → List Text → Bool
holds row (name ∷ operator ∷ mark ∷ []) (value ∷ []) =
    text_eq mark (codes "?") && compare_column operator (column name row) value
holds row (name ∷ operator ∷ mark ∷ conjunction ∷ rest) (value ∷ values) =
    text_eq mark (codes "?")
    && (text_eq conjunction (codes "AND")
        && (compare_column operator (column name row) value && holds row rest values))
holds row _ _ = false

abbrev pub holds_where : AuditLog → List Text → List Text → Bool
holds_where row [] values = false
holds_where row (keyword ∷ rest) values = text_eq keyword (codes "WHERE") && holds row rest values

-- With no WHERE clause each row is selected.
unfoldable pub clause_holds : AuditLog → Text → List Text → Bool
clause_holds row [] values = true
clause_holds row (c ∷ cs) values = holds_where row (words (c ∷ cs)) values

-- One condition with its value.
unfoldable pub satisfies : AuditLog → Condition → Text → Bool
satisfies row condition value = holds row (words (condition_text condition)) (value ∷ [])

unfoldable pub selected : AuditFilter → Database → List AuditLog
selected filter db =
    keep (λ row. clause_holds row (build_where_clause filter).0 (build_where_clause filter).1)
      db.audit_logs

-- LIMIT and OFFSET
unfoldable pub take {ℓ} : {A : Type ℓ} → ℕ → List A → List A
take zero xs = []
take (suc n) [] = []
take (suc n) (x ∷ xs) = x ∷ take n xs

unfoldable pub drop {ℓ} : {A : Type ℓ} → ℕ → List A → List A
drop zero xs = xs
drop (suc n) [] = []
drop (suc n) (x ∷ xs) = drop n xs

-- `arrange` is ORDER BY timestamp DESC, in the state in which the statement starts; `unixepoch` reads a timestamp, and `now` the clock.
pub record AuditReader (W : Type 0) : Type 0 where
  pub sqlite : Sqlite W
  pub arrange : W → List AuditLog → List AuditLog
  pub unixepoch : Text → Option ℕ
  pub now : W → ℕ × W

abbrev pub is_about : Text → AuditLog → Bool
is_about user row = elim row.target_keycloak_user_id [ none ↦ false | some id ↦ text_eq id user ]

-- unixepoch(timestamp) > unixepoch('now') - since
unfoldable pub is_since : Option ℕ → ℕ → ℕ → Bool
is_since none now since = false
is_since (some t) now since = ltb now (t + since)

module _ {W : Type 0} (reader : AuditReader W) where
  unfoldable pub recent : ℕ → Exec W (Result (List AuditLog))
  recent limit w =
      statement reader.sqlite
        (λ db. (ok (take limit (reader.arrange w.upstream db.audit_logs)), db)) w

  unfoldable pub count_all : Exec W (Result ℕ)
  count_all = statement reader.sqlite λ db. (ok (length db.audit_logs), db)

  unfoldable pub recent_page : ℕ → ℕ → Exec W (Result (List AuditLog))
  recent_page limit offset w =
      statement reader.sqlite
        (λ db. (ok (take limit (drop offset (reader.arrange w.upstream db.audit_logs))), db)) w

  unfoldable pub for_user : Text → ℕ → Exec W (Result (List AuditLog))
  for_user user limit w =
      statement reader.sqlite
        (λ db.
          (ok (take limit (reader.arrange w.upstream (keep (is_about user) db.audit_logs))), db))
        w

  unfoldable pub count_with_filter : AuditFilter → Exec W (Result ℕ)
  count_with_filter filter = statement reader.sqlite λ db. (ok (length (selected filter db)), db)

  unfoldable pub page_with_filter : AuditFilter → ℕ → ℕ → Exec W (Result (List AuditLog))
  page_with_filter filter limit offset w =
      statement reader.sqlite
        (λ db. (ok (take limit (drop offset (reader.arrange w.upstream (selected filter db)))), db))
        w

  unfoldable pub all_with_filter : AuditFilter → Exec W (Result (List AuditLog))
  all_with_filter filter w =
      statement reader.sqlite (λ db. (ok (reader.arrange w.upstream (selected filter db)), db)) w

  -- The number of rows that pass a test, of those written lately.
  unfoldable pub count_since : (AuditLog → Bool) → ℕ → Exec W (Result ℕ)
  count_since test since = do
    now ← ask reader.now
    statement reader.sqlite λ db. (
      ok (
          length (
            keep (λ row. test row && is_since (reader.unixepoch row.timestamp) now since)
              db.audit_logs)),
      db,
    )

  unfoldable pub recent_actions_count : ℕ → Exec W (Result ℕ)
  recent_actions_count since = count_since (λ row. true) since

  unfoldable pub count_actions_since : List Text → ℕ → Exec W (Result ℕ)
  count_actions_since actions since =
      if is_empty actions
      then pure (ok 0)
      else count_since (λ row. contains actions row.action) since

  unfoldable pub count_failures_since : ℕ → Exec W (Result ℕ)
  count_failures_since since = count_since (λ row. text_eq row.result (codes "failure")) since
