-- ===== src/Logging/Days.antt =====
-- `civil_from_days` in src/logging.rs follows the calendar from day to day.
use web_davs_zk.Common.{
  ℕ, zero, suc, ◌+◌, ◌-◌, ◌/◌, ◌%◌, ◌^◌, ◌≤◌, ◌<◌, ◌≡◌, refl, ap, sym, ◌∙◌, ◌⊎◌, inl, inr, arith,
}
use web_davs_zk.Common.Int.{ℤ, pos, negsuc, pos_part, neg_part, ◌+ℤ◌}
use web_davs_zk.Logging.{wrap_i64, yoe_of, doy_of, scale, era_of, doe_of, civil_of, civil_from_days}
use web_davs_zk.Logging.Calendar.{next_date}
use web_davs_zk.Logging.Step.{
  year_length, yoe-lt, doy-lt, YearStep, doe-YearStep, leap_lem, date_at-suc, date_at-zero,
}

+ℤ_suc : (n : ℕ) (era : ℤ) → pos (n + 1) +ℤ scale 400 era ≡ pos n +ℤ scale 400 era +ℤ pos 1
unfolding ◌+ℤ◌
+ℤ_suc n (pos e) = ground arith
+ℤ_suc n (negsuc e) = ground arith

civil_of-suc :
    (era : ℤ) (doe : ℕ) → doe + 1 < 146097 → civil_of era (doe + 1) ≡ next_date (civil_of era doe)
unfolding civil_of YearStep
civil_of-suc era doe h = elim (doe-YearStep doe h) [
  | inl (same, later) ↦
      rw (later, same)
        (date_at-suc _ _ (year_length (yoe_of doe))
          (leap_lem era (yoe_of doe) (yoe-lt doe (omega arith)))
          (omega (arith, doy-lt (doe + 1) h, ap year_length same)))
  | inr (later, first, last) ↦
      rw (first, later, +ℤ_suc)
        (date_at-zero _ _ (year_length (yoe_of doe))
          (leap_lem era (yoe_of doe) (yoe-lt doe (omega arith))) last)
]

last_of_era : (yoe_of 146096 ≡ 399) × (doy_of 146096 399 ≡ 365) × (yoe_of 0 ≡ 0) × (doy_of 0 0 ≡ 0)
unfolding yoe_of doy_of
last_of_era = (refl, refl, refl, refl)

era_years : (era : ℤ) → pos 0 +ℤ scale 400 (era +ℤ pos 1) ≡ pos 399 +ℤ scale 400 era +ℤ pos 1
unfolding ◌+ℤ◌
era_years (pos e) = ground arith
era_years (negsuc e) = ground arith

civil_of-zero : (era : ℤ) → civil_of (era +ℤ pos 1) 0 ≡ next_date (civil_of era 146096)
unfolding civil_of
civil_of-zero era =
    rw (last_of_era.2, last_of_era.3, last_of_era.0, last_of_era.1, era_years)
      (date_at-zero (pos 399 +ℤ scale 400 era) 365 366 (leap_lem era 399 (omega arith))
        (omega arith))

-- A day later is a day later in the same era, or the first day of the next era.
EraStep : ℤ → Type 0
EraStep z =
    ((era_of (z +ℤ pos 1) ≡ era_of z)
      × (doe_of (z +ℤ pos 1) (era_of (z +ℤ pos 1)) ≡ doe_of z (era_of z) + 1)
      × (doe_of z (era_of z) + 1 < 146097))
    ⊎ ((era_of (z +ℤ pos 1) ≡ era_of z +ℤ pos 1)
        × (doe_of (z +ℤ pos 1) (era_of (z +ℤ pos 1)) ≡ 0)
        × (doe_of z (era_of z) ≡ 146096))

pub era_of-pos : (n : ℕ) → era_of (pos n) ≡ pos (n / 146097)
unfolding era_of
era_of-pos n = ground arith

wrap_i64-negsuc : (n : ℕ) → n < 2 ^ 63 → wrap_i64 (negsuc n) ≡ negsuc n
unfolding wrap_i64
wrap_i64-negsuc n h = ground arith

pub wrap_i64-pos : (n : ℕ) → n < 2 ^ 63 → wrap_i64 (pos n) ≡ pos n
unfolding wrap_i64
wrap_i64-pos n h = ground arith

negsuc_before : (n : ℕ) → negsuc n +ℤ negsuc 146095 ≡ negsuc (n + 146096)
unfolding ◌+ℤ◌
negsuc_before n = ground arith

era_of-negsuc : (n : ℕ) → n + 146096 < 2 ^ 63 → era_of (negsuc n) ≡ negsuc (n / 146097)
unfolding era_of
era_of-negsuc n h = rw (negsuc_before n, wrap_i64-negsuc (n + 146096) h) (ground arith)

pub doe_of-pos : (n : ℕ) → doe_of (pos n) (pos (n / 146097)) ≡ n % 146097
unfolding doe_of
doe_of-pos n = ground arith

doe_of-negsuc : (n : ℕ) → doe_of (negsuc n) (negsuc (n / 146097)) ≡ 146096 - n % 146097
unfolding doe_of
doe_of-negsuc n = ground arith

ruleset eras = (era_of-pos, doe_of-pos, doe_of-negsuc)

pos_next : (n : ℕ) → pos n +ℤ pos 1 ≡ pos (n + 1)
unfolding ◌+ℤ◌
pos_next n = ground arith

negsuc_next : (n m : ℕ) → n ≡ suc m → negsuc n +ℤ pos 1 ≡ negsuc m
unfolding ◌+ℤ◌
negsuc_next n m e = ground arith

negsuc_last : negsuc 0 +ℤ pos 1 ≡ pos 0
unfolding ◌+ℤ◌
negsuc_last = refl

-- No sum with `z` wraps around.
abbrev IsRoomy : ℤ → Type 0
IsRoomy z = (pos_part z < 2 ^ 63) × (neg_part z + 146096 ≤ 2 ^ 63)

z-EraStep : (z : ℤ) → IsRoomy z → EraStep z
unfolding EraStep
z-EraStep (pos n) h = simp (pos_next n, eras) (ground (arith, pos_next (n / 146097)))
z-EraStep (negsuc zero) h =
    simp (negsuc_last, era_of-negsuc 0 (omega arith), eras) (ground (arith, negsuc_last))
z-EraStep (negsuc (suc n)) h =
    simp
      (
        negsuc_next (suc n) n refl,
        era_of-negsuc n (omega arith),
        era_of-negsuc (suc n) (omega arith),
        eras,
      )
      (ground (arith, negsuc_next (suc n / 146097) (n / 146097)))

era_step :
    (z : ℤ)
    → EraStep z
    → civil_of (era_of (z +ℤ pos 1)) (doe_of (z +ℤ pos 1) (era_of (z +ℤ pos 1)))
      ≡ next_date (civil_of (era_of z) (doe_of z (era_of z)))
unfolding EraStep
era_step z (inl (same, later, room)) = rw (later, same) (civil_of-suc _ _ room)
era_step z (inr (next, first, last)) = rw (first, next, last) (civil_of-zero (era_of z))

pub civil_from_days_lem :
    (day z : ℤ)
    → wrap_i64 (day +ℤ pos 719468) ≡ z
    → civil_from_days day ≡ civil_of (era_of z) (doe_of z (era_of z))
unfolding civil_from_days
civil_from_days_lem day z e = ap (λ z. civil_of (era_of z) (doe_of z (era_of z))) e

+ℤ_swap : (a : ℤ) (n m : ℕ) → a +ℤ pos n +ℤ pos m ≡ a +ℤ pos m +ℤ pos n
unfolding ◌+ℤ◌
+ℤ_swap a n m = ground arith

wrap_i64_roomy : (z : ℤ) → IsRoomy z → wrap_i64 z ≡ z
wrap_i64_roomy (pos n) h = wrap_i64-pos n h.0
wrap_i64_roomy (negsuc n) h = wrap_i64-negsuc n (omega (arith, h.1))

-- A day to which i64 can add 719468.
abbrev IsEarly : ℤ → Type 0
IsEarly day = (neg_part day ≤ 2 ^ 63) × (pos_part day + 719468 < 2 ^ 63)

added-IsRoomy : (day : ℤ) → IsEarly day → IsRoomy (day +ℤ pos 719468)
unfolding ◌+ℤ◌
added-IsRoomy day h = ground arith

next-IsEarly :
    (day : ℤ) → neg_part day ≤ 2 ^ 63 → pos_part day + 719469 < 2 ^ 63 → IsEarly (day +ℤ pos 1)
unfolding ◌+ℤ◌
next-IsEarly day low high = ground arith

-- Day 0, the start of Unix time, is 1970-01-01. For every day of an i64, before or after it, whose
-- next day is still less than 2^63 with 719468 added to it, the date of the next day is the date
-- that follows in the Gregorian calendar. For later days the sum does not fit in an i64.
pub civil_from_days-next_date :
    (day : ℤ)
    → neg_part day ≤ 2 ^ 63
    → pos_part day + 719469 < 2 ^ 63
    → (civil_from_days (pos 0) ≡ (pos 1970, 1, 1))
      × (civil_from_days (day +ℤ pos 1) ≡ next_date (civil_from_days day))
unfolding civil_from_days
civil_from_days-next_date day low high =
    let z = day +ℤ pos 719468 in
    let room = added-IsRoomy day (low, omega arith) in
    let room' = added-IsRoomy (day +ℤ pos 1) (next-IsEarly day low high) in
    let same : wrap_i64 (day +ℤ pos 1 +ℤ pos 719468) ≡ z +ℤ pos 1 =
      wrap_i64_roomy _ room' ∙ +ℤ_swap day 1 719468 in
    (
      refl,
      civil_from_days_lem (day +ℤ pos 1) (z +ℤ pos 1) same
          ∙ era_step z (z-EraStep z room)
          ∙ ap next_date (sym (civil_from_days_lem day z (wrap_i64_roomy z room))),
    )
