-- ===== src/Common/Text/Parse.antt =====
-- `parse::<u64>` on texts, which undoes `format!`.
use Prim.Native.Nat.{ℕ, zero, suc, ◌+◌, ◌-◌, ◌*◌, ◌/◌, ◌%◌, ◌^◌, ◌<◌}
use mathlib.Core.Path.{◌≡◌, refl, ap, ◌∙◌}
use mathlib.Core.Logic.{inl, inr}
use mathlib.Core.Bool.{Bool, true, false, ◌&&◌}
use mathlib.Core.Option.{Option, none, some, none-ne-some}
use mathlib.Core.List.{[], ◌∷◌, ◌++◌}
use native.Mathlib.Omega.{arith}
use web_davs_zk.Common.Tests.{ltb, leb, ◌==◌, nat_eq, if◌then◌else◌, Bool-cases}
use web_davs_zk.Common.Lists.{length, length-append}
use web_davs_zk.Common.Text.{Text, show, show_unfold}

abbrev is_digit : ℕ → Bool
is_digit c = leb b'0' c && leb c b'9'

-- The digits after what has been read; a number that does not fit is an error.
-- `c` is a digit, and the number with it fits.
unfoldable goes_on : ℕ → ℕ → Bool
goes_on n c = is_digit c && ltb (n * 10 + (c - b'0')) (2 ^ 64)

unfoldable parse_digits : ℕ → Text → Option ℕ
parse_digits n [] = some n
parse_digits n (c ∷ t) =
    let rest = parse_digits (n * 10 + (c - b'0')) t in if goes_on n c then rest else none

-- At least one digit is needed.
abbrev parse_number : Text → Option ℕ
parse_number [] = none
parse_number (c ∷ t) = parse_digits 0 (c ∷ t)

unfoldable pub parse_u64 : Text → Option ℕ
unfolding parse_digits goes_on
parse_u64 [] = none
parse_u64 (c ∷ t) = if c == b'+' then parse_number t else parse_digits 0 (c ∷ t)

parse_digits-append :
    (m n c : ℕ) (t : Text)
    → parse_digits m t ≡ some n
    → parse_digits m (t ++ c ∷ []) ≡ parse_digits n (c ∷ [])
unfolding parse_digits
parse_digits-append m n c [] e =
    ap (λ (k : Option ℕ). elim k [ none ↦ none | some m ↦ parse_digits m (c ∷ []) ]) e
parse_digits-append m n c (d ∷ t) e = elim (Bool-cases (goes_on m d)) [
  | inl digit ↦
      rw (digit, parse_digits) (parse_digits-append (m * 10 + (d - b'0')) n c t (rw digit at e))
  | inr other ↦ elim (none-ne-some _ (rw other at e)) [ ]
]

-- One digit after a number.
parse_digits-digit :
    (m d : ℕ) → d < 10 → m * 10 + d < 2 ^ 64 → parse_digits m ((b'0' + d) ∷ []) ≡ some (m * 10 + d)
unfolding parse_digits goes_on
parse_digits-digit m d h small = ground arith

parse_digits-show : (fuel n : ℕ) → n < fuel → n < 2 ^ 64 → parse_digits 0 (show n) ≡ some n
parse_digits-show zero n h small = elim h [ ]
parse_digits-show (suc fuel) n h small = elim (Bool-cases (ltb n 10)) [
  | inl one ↦
      rw (show_unfold n, one)
        (parse_digits-digit 0 n (ground arith) (omega arith) ∙ ap some (omega arith))
  | inr more ↦
      rw (show_unfold n, more)
        (parse_digits-append 0 (n / 10) (b'0' + n % 10) (show (n / 10))
            (parse_digits-show fuel (n / 10) (ground arith) (omega arith))
          ∙ (parse_digits-digit (n / 10) (n % 10) (omega arith) (omega arith)
              ∙ ap some (omega arith)))
]

goes_on-plus : (c : ℕ) → (c == b'+') ≡ true → goes_on 0 c ≡ false
unfolding goes_on
goes_on-plus c plus = ground arith

length-show_pos : (n : ℕ) → 0 < length (show n)
length-show_pos n =
    ground (arith, show_unfold n, length-append {0} (show (n / 10)) ((b'0' + n % 10) ∷ []))

-- A text that reads as digits and is not empty reads as a number.
parse_u64-digits :
    (t : Text) (n : ℕ) → ¬ (t ≡ []) → parse_digits 0 t ≡ some n → parse_u64 t ≡ some n
unfolding parse_u64
parse_u64-digits [] n some_digit e = elim (some_digit refl) [ ]
parse_u64-digits (c ∷ t) n some_digit e = elim (Bool-cases (c == b'+')) [
  | inl plus ↦ elim (none-ne-some _ (rw (goes_on-plus c plus) at e)) [ ]
  | inr other ↦ rw other e
]

pub parse_u64-show : (n : ℕ) → n < 2 ^ 64 → parse_u64 (show n) ≡ some n
parse_u64-show n small =
    parse_u64-digits (show n) n (λ empty. omega (arith, length-show_pos n, ap length empty))
      (parse_digits-show (suc n) n (omega arith) small)
