-- ===== src/Tests/Dates.antt =====
-- The date of the day 19782, the 29th of February 2024.
use matrix_identity_admin.Prelude.{◌+◌, ◌≤◌, ◌≡◌}
use matrix_identity_admin.Calendar.{days_to_ymd}
use matrix_identity_admin.Calendar.Civil.{day_number, day_number-days_to_ymd}

day_number-days_to_ymd_example :
    let d = days_to_ymd 19782 in
    (day_number d ≡ 19782 + 719468) × (1 ≤ d.month) × (d.month ≤ 12) × (1 ≤ d.day) × (d.day ≤ 31)
day_number-days_to_ymd_example = day_number-days_to_ymd 19782
