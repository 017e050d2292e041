-- ===== src/Logging/Lines/Stamps.antt =====
-- The width of the time stamps of src/logging.rs.
use mathlib.Core.Path.{subst}
use web_davs_zk.Common.{
  ℕ, ◌+◌, ◌*◌, ◌/◌, ◌%◌, ◌≤◌, ◌<◌, ◌≡◌, refl, ap, ◌^◌, ◌∙◌, sym, arith, Bool-cases, inl, inr, ltb,
  ◌∷◌, ◌++◌, length, length-append, leb, if◌then◌else◌,
}
use web_davs_zk.Common.Int.{pos, ◌+ℤ◌}
use web_davs_zk.Common.Text.{
  show_padded, length-show_padded, length-show_lt_100, length-show_lt_10000,
}
use web_davs_zk.Logging.Days.{civil_from_days_lem, wrap_i64-pos, era_of-pos, doe_of-pos}
use web_davs_zk.Logging.Step.{yoe-lt}
use web_davs_zk.Logging.{wrap_i64, yoe_of, doy_of, month_of, day_of, civil_of, civil_from_days}
use web_davs_zk.Logging.Lines.{date_text, time_text, utc_timestamp}

-- The year that the algorithm computes, counted from January.
abbrev year_of : ℕ → ℕ → ℕ
year_of era doe =
    let yoe = yoe_of doe in
    let y = yoe + 400 * era in if leb (month_of (doy_of doe yoe)) 2 then y + 1 else y

civil_of-pos :
    (era doe : ℕ)
    → civil_of (pos era) doe ≡ (
      pos (year_of era doe),
      month_of (doy_of doe (yoe_of doe)),
      day_of (doy_of doe (yoe_of doe)),
    )
unfolding civil_of ◌+ℤ◌
civil_of-pos era doe = ground arith

added : (n : ℕ) → pos n +ℤ pos 719468 ≡ pos (n + 719468)
unfolding ◌+ℤ◌
added n = ground arith

civil_from_days-pos :
    (n : ℕ)
    → n + 719468 < 2 ^ 63
    → let z = n + 719468 in civil_from_days (pos n) ≡ civil_of (pos (z / 146097)) (z % 146097)
civil_from_days-pos n h =
    let z = n + 719468 in
    civil_from_days_lem (pos n) (pos z) (ap wrap_i64 (added n) ∙ wrap_i64-pos z h)
    ∙ rw (era_of-pos z, doe_of-pos z) refl

month_of-lt : (doy : ℕ) → doy < 366 → (month_of doy < 100) × (day_of doy < 100)
unfolding month_of day_of
month_of-lt doy h = ground arith

doy-lt_366 : (doe : ℕ) → doe < 146097 → doy_of doe (yoe_of doe) < 366
unfolding yoe_of doy_of
doy-lt_366 doe h = omega arith

-- The last year of an era ends its third month at the earliest on this day.
december : (doy : ℕ) → doy ≤ 305 → 3 ≤ month_of doy
unfolding month_of
december doy h = ground arith

last_year : (doe : ℕ) → doe ≤ 146036 → yoe_of doe ≡ 399 → doy_of doe (yoe_of doe) ≤ 305
unfolding yoe_of doy_of
last_year doe h e = omega (arith, e)

year_of-le : (era doe : ℕ) → doe < 146097 → year_of era doe ≤ 400 * era + 400
year_of-le era doe h = ground (arith, yoe-lt doe h)

year_of-last : (doe : ℕ) → doe ≤ 146036 → year_of 24 doe ≤ 9999
year_of-last doe h = ground (arith, yoe-lt doe, last_year doe h, december (doy_of doe (yoe_of doe)))

year_of-lt : (era doe : ℕ) → doe < 146097 → era * 146097 + doe < 3652365 → year_of era doe < 10000
year_of-lt era doe small h = elim (Bool-cases (ltb era 24)) [
  | inl early ↦ ground (arith, year_of-le era doe small)
  | inr late ↦
      let same : era ≡ 24 = ground arith in
      subst (λ e. year_of e doe < 10000) (sym same) (omega (arith, year_of-last doe (omega arith)))
]

length-date_text :
    (y m d : ℕ) → y < 10000 → m < 100 → d < 100 → length (date_text (pos y, m, d)) ≡ 10
length-date_text y m d hy hm hd =
    let year = length-show_padded 4 y (length-show_lt_10000 y hy) in
    let month = length-show_padded 2 m (length-show_lt_100 m hm) in
    let day = length-show_padded 2 d (length-show_lt_100 d hd) in
    omega (
      arith,
      length-append (show_padded 4 y) (b'-' ∷ (show_padded 2 m ++ (b'-' ∷ show_padded 2 d))),
      length-append (show_padded 2 m) (b'-' ∷ show_padded 2 d),
      year,
      month,
      day,
    )

length-time_text : (rem : ℕ) → rem < 86400 → length (time_text rem) ≡ 8
length-time_text rem h =
    let hours = length-show_padded 2 (rem / 3600) (length-show_lt_100 _ (omega arith)) in
    let minutes = length-show_padded 2 (rem % 3600 / 60) (length-show_lt_100 _ (omega arith)) in
    let seconds = length-show_padded 2 (rem % 60) (length-show_lt_100 _ (omega arith)) in
    omega (
      arith,
      length-append (show_padded 2 (rem / 3600))
          (b':' ∷ (show_padded 2 (rem % 3600 / 60) ++ (b':' ∷ show_padded 2 (rem % 60)))),
      length-append (show_padded 2 (rem % 3600 / 60)) (b':' ∷ show_padded 2 (rem % 60)),
      hours,
      minutes,
      seconds,
    )

length-date_of_day : (day : ℕ) → day < 2932897 → length (date_text (civil_from_days (pos day))) ≡ 10
length-date_of_day day h =
    let z = day + 719468 in
    let doe = z % 146097 in
    let doy = doy_of doe (yoe_of doe) in
    let (m, d) = month_of-lt doy (doy-lt_366 doe (omega arith)) in
    rw (civil_from_days-pos day (omega arith), civil_of-pos (z / 146097) doe)
      (length-date_text (year_of (z / 146097) doe) (month_of doy) (day_of doy)
        (year_of-lt (z / 146097) doe (omega arith) (omega arith)) m d)

-- Up to the end of the year 9999 the time stamp of a line has 19 characters, as in
-- `YYYY-MM-DD HH:MM:SS`.
pub length-utc_timestamp : (secs : ℕ) → secs < 253402300800 → length (utc_timestamp secs) ≡ 19
unfolding utc_timestamp
length-utc_timestamp secs h =
    let date = date_text (civil_from_days (pos (secs / 86400))) in
    let time = time_text (secs % 86400) in
    omega (
      arith,
      length-append date (b' ' ∷ time),
      length-date_of_day (secs / 86400) (omega arith),
      length-time_text (secs % 86400) (omega arith),
    )
