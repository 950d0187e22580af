-- ===== src/Calendar/Civil.antt =====
-- src/services/audit_service.rs: the dates of the timestamps and the days they count.
use matrix_identity_admin.Prelude.{
  ℕ, ◌+◌, ◌-◌, ◌*◌, ◌/◌, ◌%◌, ◌≤◌, ◌<◌, ltb, if◌then◌else◌, Bool, true, false, ◌≡◌, refl, ◌∙◌,
  arith,
}
use matrix_identity_admin.Calendar.{Date, year_of_era, month_of, day_of, days_to_ymd}

-- The days before the year y of an era, which begins on the first of March.
abbrev pub before_year : ℕ → ℕ
before_year y = 365 * y + y / 4 - y / 100

year_starts : (doe : ℕ) → doe < 146097 → before_year (year_of_era doe) ≤ doe
unfolding year_of_era
year_starts doe h = omega (arith, h)

year_ends : (doe : ℕ) → doe < 146097 → doe - before_year (year_of_era doe) ≤ 365
unfolding year_of_era
year_ends doe h = omega (arith, h)

years_of_era : (doe : ℕ) → doe < 146097 → year_of_era doe < 400
unfolding year_of_era
years_of_era doe h = omega (arith, h)

-- The days from the first of March of the year 0 to a date.
abbrev pub day_number : Date → ℕ
day_number d =
    let y = if ltb 2 d.month then d.year else d.year - 1 in
    let mp = if ltb 2 d.month then d.month - 3 else d.month + 9 in
    y / 400 * 146097 + before_year (y % 400) + (153 * mp + 2) / 5 + d.day - 1

month_back :
    (doy : ℕ)
    → doy ≤ 365
    → (if ltb 2 (month_of doy) then month_of doy - 3 else month_of doy + 9) ≡ (5 * doy + 2) / 153
unfolding month_of
month_back doy h = ground (arith, h)

month_bounds : (doy : ℕ) → doy ≤ 365 → (1 ≤ month_of doy) × (month_of doy ≤ 12)
unfolding month_of
month_bounds doy h = (ground (arith, h), ground (arith, h))

day_back : (doy : ℕ) → (153 * ((5 * doy + 2) / 153) + 2) / 5 + day_of doy ≡ doy + 1
unfolding day_of
day_back doy = omega arith

day_bounds : (doy : ℕ) → doy ≤ 365 → (1 ≤ day_of doy) × (day_of doy ≤ 31)
unfolding day_of
day_bounds doy h = (omega arith, omega (arith, h))

era_back :
    (era yoe : ℕ) → yoe < 400 → ((yoe + era * 400) / 400 ≡ era) × ((yoe + era * 400) % 400 ≡ yoe)
era_back era yoe h = (omega (arith, h), omega (arith, h))

in_era : (days : ℕ) → (days + 719468) % 146097 < 146097
in_era days = omega arith

year_back :
    (late : Bool) (y : ℕ)
    → (if late then (if late then y else y + 1) else (if late then y else y + 1) - 1) ≡ y
year_back true y = refl
year_back false y = omega arith

sum_back :
    (a s x d doy doe : ℕ) → x + d ≡ doy + 1 → doy ≡ doe - s → s ≤ doe → a + s + x + d - 1 ≡ a + doe
sum_back a s x d doy doe h e le = omega (arith, h, e, le)

day_number_back :
    (era doe : ℕ)
    → doe < 146097
    → let yoe = year_of_era doe in
      let doy = doe - before_year yoe in
      let y = yoe + era * 400 in
      let m = month_of doy in
      day_number (record { year = if ltb 2 m then y else y + 1; month = m; day = day_of doy })
      ≡ era * 146097 + doe
day_number_back era doe h =
    let yoe = year_of_era doe in
    let doy = doe - before_year yoe in
    let y = yoe + era * 400 in
    let back = era_back era yoe (years_of_era doe h) in
    rw (year_back (ltb 2 (month_of doy)) y) (
      rw (month_back doy (year_ends doe h)) (
        rw back.0 (
          rw back.1 (
            sum_back (era * 146097) (before_year yoe) ((153 * ((5 * doy + 2) / 153) + 2) / 5)
              (day_of doy) doy doe (day_back doy) refl (year_starts doe h)))))

-- The date of a day since 1970 counts back to it: the days from the first of March of the year 0,
-- by the Gregorian rule for leap years, are the given days and 719468; and its month is from 1 to
-- 12 and its day from 1 to 31.
pub day_number-days_to_ymd :
    (days : ℕ)
    → let d = days_to_ymd days in
      (day_number d ≡ days + 719468) × (1 ≤ d.month) × (d.month ≤ 12) × (1 ≤ d.day) × (d.day ≤ 31)
unfolding days_to_ymd
day_number-days_to_ymd days =
    let z = days + 719468 in
    let doe = z % 146097 in
    let doy = doe - before_year (year_of_era doe) in
    let ends = year_ends doe (in_era days) in
    (
      day_number_back (z / 146097) doe (in_era days) ∙ whole z,
      (month_bounds doy ends).0,
      (month_bounds doy ends).1,
      (day_bounds doy ends).0,
      (day_bounds doy ends).1,
    )
  where
    whole : (z : ℕ) → z / 146097 * 146097 + z % 146097 ≡ z
    whole z = omega arith
