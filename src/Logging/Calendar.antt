-- ===== src/Logging/Calendar.antt =====
-- The Gregorian calendar, independently of the algorithm in src/logging.rs.
use web_davs_zk.Common.{ℕ, ◌+◌, ◌%◌, ◌&&◌, ◌||◌, not, Bool, ltb, ◌==◌, nat_eq, if◌then◌else◌}
use web_davs_zk.Common.Int.{ℤ, pos, pos_part, neg_part, ◌+ℤ◌}

-- `k` divides the year, whatever its sign.
abbrev pub divides : ℕ → ℤ → Bool
divides k y = (pos_part y + neg_part y) % k == 0

unfoldable pub is_leap : ℤ → Bool
is_leap y = divides 4 y && (not (divides 100 y) || divides 400 y)

unfoldable pub days_in_month : ℤ → ℕ → ℕ
days_in_month y m =
    if m == 2
    then (if is_leap y then 29 else 28)
    else if m == 4 || m == 6 || m == 9 || m == 11
    then 30
    else 31

-- The date after a date.
unfoldable pub next_date : ℤ × ℕ × ℕ → ℤ × ℕ × ℕ
next_date (y, m, d) =
    if ltb d (days_in_month y m)
    then (y, m, d + 1)
    else if ltb m 12
    then (y, m + 1, 1)
    else (y +ℤ pos 1, 1, 1)
