-- ===== src/Logging/Step.antt =====
-- One day more: the algorithm of src/logging.rs against the calendar.
use web_davs_zk.Common.{
  ℕ, ◌+◌, ◌-◌, ◌/◌, ◌≤◌, ◌<◌, ◌≡◌, refl, ◌⊎◌, ◌≢◌, arith, leb, if◌then◌else◌, inl, inr, Bool-cases,
}
use web_davs_zk.Common.Int.{ℤ, pos, negsuc, ◌+ℤ◌}
use web_davs_zk.Logging.{yoe_of, doy_of, scale, month_of, day_of}
use web_davs_zk.Logging.Calendar.{is_leap, days_in_month, next_date}

pub yoe-lt : (doe : ℕ) → doe < 146097 → yoe_of doe < 400
unfolding yoe_of
yoe-lt doe h = omega arith

-- The length of the year that starts in March of the year `y` of an era.
abbrev pub year_length : ℕ → ℕ
year_length y = 365 + (y + 1) / 4 + y / 100 - y / 4 - (y + 1) / 100 + (y + 1) / 400

pub doy-lt : (doe : ℕ) → doe < 146097 → doy_of doe (yoe_of doe) < year_length (yoe_of doe)
unfolding yoe_of doy_of
doy-lt doe h = omega arith

-- Within an era, a day later is a day later in the same year, or the first day of the next year.
unfoldable pub YearStep : ℕ → Type 0
YearStep doe =
    ((yoe_of (doe + 1) ≡ yoe_of doe)
      × (doy_of (doe + 1) (yoe_of (doe + 1)) ≡ doy_of doe (yoe_of doe) + 1))
    ⊎ ((yoe_of (doe + 1) ≡ yoe_of doe + 1)
        × (doy_of (doe + 1) (yoe_of (doe + 1)) ≡ 0)
        × (doy_of doe (yoe_of doe) + 1 ≡ year_length (yoe_of doe)))

pub doe-YearStep : (doe : ℕ) → doe + 1 < 146097 → YearStep doe
unfolding yoe_of doy_of YearStep
doe-YearStep doe h = omega arith

month_range : (doy : ℕ) → doy < 366 → (1 ≤ month_of doy) × (month_of doy ≤ 12) × (1 ≤ day_of doy)
unfolding month_of day_of
month_range doy h = ground arith

february : (doy : ℕ) → doy < 366 → month_of doy ≡ 2 → day_of doy + 336 ≡ doy
unfolding month_of day_of
february doy h e = ground arith

february_step :
    (doy : ℕ)
    → doy + 1 < 366
    → month_of doy ≡ 2
    → (month_of (doy + 1) ≡ 2) × (day_of (doy + 1) ≡ day_of doy + 1)
unfolding month_of day_of
february_step doy h e = ground arith

first_of_march : (month_of 0 ≡ 3) × (day_of 0 ≡ 1)
unfolding month_of day_of
first_of_march = (refl, refl)

last_of_february : (doy : ℕ) → 364 ≤ doy → doy < 366 → month_of doy ≡ 2
unfolding month_of
last_of_february doy g h = ground arith

-- Outside February the lengths of months do not depend on the year.
MonthStep : ℤ → ℕ → Type 0
MonthStep y doy =
    ((month_of (doy + 1) ≡ month_of doy)
      × (day_of (doy + 1) ≡ day_of doy + 1)
      × (day_of doy < days_in_month y (month_of doy)))
    ⊎ ((month_of (doy + 1) ≡ month_of doy + 1)
        × (day_of (doy + 1) ≡ 1)
        × (day_of doy ≡ days_in_month y (month_of doy))
        × (month_of doy < 12))
    ⊎ ((month_of (doy + 1) ≡ 1)
        × (day_of (doy + 1) ≡ 1)
        × (day_of doy ≡ days_in_month y (month_of doy))
        × (month_of doy ≡ 12))

doy-MonthStep : (y : ℤ) (doy : ℕ) → doy + 1 < 366 → month_of doy ≢ 2 → MonthStep y doy
unfolding month_of day_of days_in_month MonthStep
doy-MonthStep y doy h other = ground arith

-- The year from March on contains the February of the next year.
pub leap_lem :
    (era : ℤ) (yoe : ℕ)
    → yoe < 400
    → year_length yoe ≡ (if is_leap (pos yoe +ℤ scale 400 era +ℤ pos 1) then 366 else 365)
unfolding is_leap ◌+ℤ◌
leap_lem (pos e) yoe h = ground arith
leap_lem (negsuc e) yoe h = ground arith

-- The date at day `doy` of the year that starts in March of `y`.
abbrev pub date_at : ℤ → ℕ → ℤ × ℕ × ℕ
date_at y doy = (if leb (month_of doy) 2 then y +ℤ pos 1 else y, month_of doy, day_of doy)

feb_days : (y : ℤ) → days_in_month y 2 ≡ (if is_leap y then 29 else 28)
unfolding days_in_month
feb_days y = refl

date_at-february :
    (y : ℤ) (doy len : ℕ)
    → len ≡ (if is_leap (y +ℤ pos 1) then 366 else 365)
    → doy + 1 < len
    → month_of doy ≡ 2
    → date_at y (doy + 1) ≡ next_date (date_at y doy)
unfolding next_date
date_at-february y doy len e h feb =
    ground (arith, february doy, february_step doy, feb_days (y +ℤ pos 1))

pub date_at-suc :
    (y : ℤ) (doy len : ℕ)
    → len ≡ (if is_leap (y +ℤ pos 1) then 366 else 365)
    → doy + 1 < len
    → date_at y (doy + 1) ≡ next_date (date_at y doy)
unfolding next_date MonthStep
date_at-suc y doy len e h = elim (Bool-cases (leb (month_of doy) 2)) [
  | inl early ↦
      ground
        (arith, date_at-february y doy len e h, month_range doy, doy-MonthStep (y +ℤ pos 1) doy)
  | inr late ↦ ground (arith, month_range doy, doy-MonthStep y doy)
]

pub date_at-zero :
    (y : ℤ) (doy len : ℕ)
    → len ≡ (if is_leap (y +ℤ pos 1) then 366 else 365)
    → doy + 1 ≡ len
    → date_at (y +ℤ pos 1) 0 ≡ next_date (date_at y doy)
unfolding next_date
date_at-zero y doy len e h =
    ground (arith, first_of_march, last_of_february doy, february doy, feb_days (y +ℤ pos 1))
