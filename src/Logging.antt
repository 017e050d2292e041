-- ===== src/Logging.antt =====
-- src/logging.rs: the levels, and the time stamp of a line.
pub mod Calendar
mod Step
pub mod Days
pub mod Lines
use Prim.Native.Nat.{compare}
use web_davs_zk.Common.{
  ℕ, suc, ◌+◌, ◌-◌, ◌*◌, ◌/◌, ◌%◌, ◌^◌, Bool, List, [], ◌∷◌, ◌++◌, ltb, leb, if◌then◌else◌,
}
use web_davs_zk.Common.Int.{ℤ, pos, negsuc, sub_ℕ, pos_part, neg_part, ◌+ℤ◌}
use web_davs_zk.Common.Text.{Text, text, show_padded}

-- `x / k` on i64 rounds towards zero.
abbrev tdiv : ℤ → ℕ → ℤ
tdiv (pos n) k = pos (n / k)
tdiv (negsuc n) k = sub_ℕ 0 (suc n / k)

abbrev pub scale : ℕ → ℤ → ℤ
scale k z = sub_ℕ (pos_part z * k) (neg_part z * k)

-- `x as u64` on an i64
abbrev as_u64 : ℤ → ℕ
as_u64 (pos n) = n % 2 ^ 64
as_u64 (negsuc n) = 2 ^ 64 - 1 - n % 2 ^ 64

-- What i64 makes of a sum: it wraps around, as in a release build.
pub wrap_i64 : ℤ → ℤ
wrap_i64 z = let n = as_u64 z in if ltb n (2 ^ 63) then pos n else negsuc (2 ^ 64 - 1 - n)

abbrev as_u32 : ℕ → ℕ
as_u32 n = n % 2 ^ 32

abbrev is_nonneg : ℤ → Bool
is_nonneg z = leb (neg_part z) 0

pub yoe_of : ℕ → ℕ
yoe_of doe = (doe - doe / 1460 + doe / 36524 - doe / 146096) / 365

pub doy_of : ℕ → ℕ → ℕ
doy_of doe yoe = doe - (365 * yoe + yoe / 4 - yoe / 100)

pub era_of : ℤ → ℤ
unfolding ◌+ℤ◌ wrap_i64
era_of z = tdiv (if is_nonneg z then z else wrap_i64 (z +ℤ negsuc 146095)) 146097

pub doe_of : ℤ → ℤ → ℕ
unfolding ◌+ℤ◌
doe_of z era =
    as_u64
      (sub_ℕ (pos_part z + neg_part (scale 146097 era)) (neg_part z + pos_part (scale 146097 era)))

pub month_of : ℕ → ℕ
month_of doy = let mp = (5 * doy + 2) / 153 in as_u32 (if ltb mp 10 then mp + 3 else mp - 9)

pub day_of : ℕ → ℕ
day_of doy = let mp = (5 * doy + 2) / 153 in as_u32 (doy - (153 * mp + 2) / 5 + 1)

-- The last lines, from `let yoe` on.
pub civil_of : ℤ → ℕ → ℤ × ℕ × ℕ
civil_of era doe =
    let yoe = yoe_of doe in
    let y = pos yoe +ℤ scale 400 era in
    let doy = doy_of doe yoe in
    let m = month_of doy in (if leb m 2 then y +ℤ pos 1 else y, m, day_of doy)

-- Days since 1970-01-01 to year, month and day.
unfoldable pub civil_from_days : ℤ → ℤ × ℕ × ℕ
unfolding yoe_of doy_of era_of doe_of month_of day_of civil_of ◌+ℤ◌ wrap_i64
civil_from_days day =
    let z = wrap_i64 (day +ℤ pos 719468) in let era = era_of z in civil_of era (doe_of z era)
