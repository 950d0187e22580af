-- ===== src/Calendar.antt =====
-- src/services/audit_service.rs:112-149: the UTC timestamp of an audit entry. The numbers are u64;
-- they stay far below 2 ^ 64 for every time of day that a clock shows.
pub mod Civil
use matrix_identity_admin.Prelude.{
  ℕ, zero, suc, ◌+◌, ◌-◌, ◌*◌, ◌/◌, ◌%◌, ◌++◌, ◌≡◌, refl, [], ◌∷◌, ltb, if◌then◌else◌, length,
}
use matrix_identity_admin.Text.{Text, codes, show_nat}

pub record Date : Type 0 where
  pub year : ℕ
  pub month : ℕ
  pub day : ℕ

unfoldable pub year_of_era : ℕ → ℕ
year_of_era doe = (doe - doe / 1460 + doe / 36524 - doe / 146096) / 365

-- The month and day of a day of the year that begins on the first of March.
unfoldable pub month_of : ℕ → ℕ
month_of doy = let mp = (5 * doy + 2) / 153 in if ltb mp 10 then mp + 3 else mp - 9

unfoldable pub day_of : ℕ → ℕ
day_of doy = let mp = (5 * doy + 2) / 153 in doy - (153 * mp + 2) / 5 + 1

unfoldable pub days_to_ymd : ℕ → Date
days_to_ymd days =
    let z = days + 719468 in
    let era = z / 146097 in
    let doe = z % 146097 in
    let yoe = year_of_era doe in
    let y = yoe + era * 400 in
    let doy = doe - (365 * yoe + yoe / 4 - yoe / 100) in
    let m = month_of doy in
    record { year = if ltb 2 m then y else y + 1; month = m; day = day_of doy }

zeros : ℕ → Text
zeros zero = []
zeros (suc n) = 48 ∷ zeros n

-- `{n:0width}`
unfoldable pub padded : ℕ → ℕ → Text
unfolding zeros show_nat
padded width n = let s = show_nat n in zeros (width - length s) ++ s

unfoldable pub chrono_now : ℕ → Text
unfolding padded days_to_ymd year_of_era month_of day_of codes
chrono_now s =
    let date = days_to_ymd (s / 86400) in
    padded 4 date.year
    ++ (codes "-"
        ++ (padded 2 date.month
            ++ (codes "-"
                ++ (padded 2 date.day
                    ++ (codes "T"
                        ++ (padded 2 (s / 3600 % 24)
                            ++ (codes ":"
                                ++ (padded 2 (s / 60 % 60)
                                    ++ (codes ":" ++ (padded 2 (s % 60) ++ codes "Z"))))))))))

chrono_now_test : chrono_now 1709210096 ≡ codes "2024-02-29T12:34:56Z"
unfolding chrono_now
chrono_now_test = refl
