-- ===== src/Handlers/Audit.antt =====
-- src/handlers/audit.rs: the audit page and its export, up to the template that prints the page.
-- `extract::Query` has parsed the query; a page that is not given is 1.
pub mod Csv
pub mod Dates
pub mod Listing
use matrix_identity_admin.Prelude.{
  ℕ, zero, suc, ◌+◌, ◌-◌, ◌*◌, ◌/◌, List, [], ◌∷◌, ◌++◌, map, Option, none, some, Bool, true, false,
  not, ◌&&◌, ◌||◌, ltb, leb, ◌==◌, all, any, is_empty, length, if◌then◌else◌,
}
use matrix_identity_admin.Text.{Text, codes, contains, join, ℤ, pos, negsuc}
use matrix_identity_admin.Utf8.{utf8}
use matrix_identity_admin.Models.Error.{AppError, Result, Done, ok, err}
use matrix_identity_admin.Models.Accounts.{is_digit}
use matrix_identity_admin.Models.Audit.{AuditLog}
use matrix_identity_admin.Effects.Exec.{Exec, pure, ◌>>=◌, or_return, try_then}
use matrix_identity_admin.AuditQueries.{
  AuditFilter, AuditReader, take, drop, count_with_filter, page_with_filter, all_with_filter,
}

abbrev pub page_size : ℕ
page_size = 50

unfoldable pub audit_action_options : List Text
audit_action_options =
    codes "create_policy_binding"
    ∷ codes "deactivate_auth_account_on_offboard"
    ∷ codes "deactivate_mas_user"
    ∷ codes "delete_keycloak_user"
    ∷ codes "delete_policy_binding"
    ∷ codes "disable_identity_account_on_disable"
    ∷ codes "disable_identity_account_on_offboard"
    ∷ codes "enable_identity_account_on_reactivate"
    ∷ codes "finish_mas_session"
    ∷ codes "force_identity_logout_on_offboard"
    ∷ codes "force_keycloak_logout"
    ∷ codes "invite_user"
    ∷ codes "join_room_on_reconcile"
    ∷ codes "kick_room_on_offboard"
    ∷ codes "kick_room_on_reconcile"
    ∷ codes "reactivate_auth_account_on_reactivate"
    ∷ codes "reactivate_mas_user"
    ∷ codes "revoke_auth_session_on_disable"
    ∷ codes "revoke_auth_session_on_offboard"
    ∷ codes "update_policy_binding"
    ∷ []

unfoldable pub audit_result_options : List Text
audit_result_options = codes "success" ∷ codes "failure" ∷ []

pub record AuditQuery : Type 0 where
  pub page : ℤ
  pub action : Option Text
  pub result : Option Text
  pub admin : Option Text
  pub from : Option Text
  pub to : Option Text

abbrev pub unwrap_or_default : Option Text → Text
unwrap_or_default none = []
unwrap_or_default (some t) = t

unfoldable pub validate_optional_filter : Option Text → Text → List Text → Result Text
validate_optional_filter raw name allowed =
    let value = unwrap_or_default raw in
    if is_empty value || contains allowed value
    then ok value
    else err (AppError.validation (codes "Invalid audit " ++ (name ++ codes " filter.")))

unfoldable pub non_empty : Text → Option Text
non_empty [] = none
non_empty (c ∷ cs) = some (c ∷ cs)

-- `b[i]`, below the length.
abbrev pub byte_at : ℕ → List ℕ → ℕ
byte_at i [] = 0
byte_at zero (b ∷ bs) = b
byte_at (suc i) (b ∷ bs) = byte_at i bs

-- The slices of the source are cut at bytes of ASCII, and a character is an ASCII digit exactly
-- when its bytes are.
unfoldable pub is_date_bytes : List ℕ → Bool
is_date_bytes b =
    length b == 10
    && (byte_at 4 b == 45
        && (byte_at 7 b == 45
            && (all is_digit (take 4 b)
                && (all is_digit (take 2 (drop 5 b)) && all is_digit (take 2 (drop 8 b))))))

unfoldable pub validate_date_format : Text → Done
validate_date_format s =
    if is_date_bytes (utf8 s)
    then ok tt
    else err (AppError.validation (codes "Invalid date format, expected YYYY-MM-DD"))

-- `if !s.is_empty() { validate_date_format(s)?; }`
abbrev pub date_if_given : Text → Done
date_if_given s = if not (is_empty s) then validate_date_format s else ok tt

abbrev pub and_ok {ℓ} : {A B : Type ℓ} → Result A → (A → Result B) → Result B
and_ok (ok a) f = f a
and_ok (err e) f = err e

-- What both handlers do first.
unfoldable pub filter_of : AuditQuery → Result AuditFilter
filter_of query =
    and_ok (validate_optional_filter query.action (codes "action") audit_action_options) λ action.
      and_ok (validate_optional_filter query.result (codes "result") audit_result_options) λ result.
        let from = unwrap_or_default query.from in
        let to = unwrap_or_default query.to in
        and_ok (date_if_given from) λ _. and_ok (date_if_given to) λ _. ok (record {
          action = non_empty action;
          result = non_empty result;
          admin_username = non_empty (unwrap_or_default query.admin);
          from = non_empty from;
          to = non_empty to;
        })

-- `max(1)` and `min(total_pages)` of an i64
unfoldable pub clamp_page : ℕ → ℤ → ℕ
clamp_page total_pages (negsuc n) = 1
clamp_page total_pages (pos n) = if ltb n 1 then 1 else if leb n total_pages then n else total_pages

unfoldable pub total_pages_of : ℕ → ℕ
total_pages_of total =
    let pages = (total + page_size - 1) / page_size in if leb 1 pages then pages else 1

pub record AuditRow : Type 0 where
  pub timestamp : Text
  pub admin_username : Text
  pub action : Text
  pub result : Text
  pub target_keycloak_user_id : Option Text
  pub target_matrix_user_id : Option Text

abbrev pub audit_row : AuditLog → AuditRow
audit_row l = record {
  timestamp = l.timestamp;
  admin_username = l.admin_username;
  action = l.action;
  result = l.result;
  target_keycloak_user_id = l.target_keycloak_user_id;
  target_matrix_user_id = l.target_matrix_user_id;
}

-- What the template is given of the answer.
pub record AuditPage : Type 0 where
  pub logs : List AuditRow
  pub page : ℕ
  pub total_pages : ℕ

-- The query is parsed first, so a bad filter reads nothing.
module _ {W : Type 0} (reader : AuditReader W) where
  unfoldable pub list_page : AuditQuery → AuditFilter → ℕ → Exec W (Result AuditPage)
  list_page query filter total =
      let total_pages = total_pages_of total in
      let page = clamp_page total_pages query.page in
      try_then (page_with_filter reader filter page_size ((page - 1) * page_size)) λ logs.
        pure (ok (record { logs = map audit_row logs; page = page; total_pages = total_pages }))

  unfoldable pub list : AuditQuery → Exec W (Result AuditPage)
  list query =
      or_return
        (λ filter. try_then (count_with_filter reader filter) λ total. list_page query filter total)
        (filter_of query)

-- `replace('"', "\"\"")`
unfoldable pub double_quotes : Text → Text
double_quotes [] = []
double_quotes (c ∷ cs) = (if c == 34 then 34 ∷ 34 ∷ [] else c ∷ []) ++ double_quotes cs

unfoldable pub csv_escape : Text → Text
csv_escape s =
    if any (λ c. c == 44) s || (any (λ c. c == 34) s || any (λ c. c == 10) s)
    then 34 ∷ (double_quotes s ++ 34 ∷ [])
    else s

abbrev pub csv_fields : AuditLog → List Text
csv_fields log =
    log.timestamp
    ∷ log.admin_username
    ∷ log.action
    ∷ log.result
    ∷ unwrap_or_default log.target_keycloak_user_id
    ∷ unwrap_or_default log.target_matrix_user_id
    ∷ []

unfoldable pub csv_line : AuditLog → Text
csv_line log = join (44 ∷ []) (map csv_escape (csv_fields log)) ++ 10 ∷ []

abbrev pub csv_header : Text
csv_header =
    codes "timestamp,admin_username,action,result,target_keycloak_user_id,target_matrix_user_id"
    ++ 10 ∷ []

abbrev pub csv_lines : List AuditLog → Text
csv_lines [] = []
csv_lines (log ∷ logs) = csv_line log ++ csv_lines logs

unfoldable pub csv_of : List AuditLog → Text
csv_of logs = csv_header ++ csv_lines logs

module _ {W : Type 0} (reader : AuditReader W) where
  unfoldable pub export_csv : AuditQuery → Exec W (Result Text)
  export_csv query =
      or_return (λ filter. try_then (all_with_filter reader filter) λ logs. pure (ok (csv_of logs)))
        (filter_of query)
