-- ===== src/Common/Text.antt =====
-- Texts as lists of code points, with the decimal printing of `format!`.
pub mod Split
pub mod Trim
pub mod Parse
use Prim.Native.Nat.{ℕ, zero, suc, ◌+◌, ◌-◌, ◌/◌, ◌%◌, ◌≤◌, ◌<◌}
use Prim.Native.Char.{code}
use Prim.Native.String.{String}
use mathlib.Core.Path.{◌≡◌, refl}
use mathlib.Core.List.{List, [], ◌∷◌, ◌++◌}
use native.Mathlib.Omega.{arith}
use web_davs_zk.Common.Tests.{ltb, nat_beq, if◌then◌else◌}
use web_davs_zk.Common.Lists.{length, length-append}

abbrev pub Text : Type 0
Text = List ℕ

-- The code points of a literal.
abbrev pub text : String → Text
text String.[] = []
text (String.◌∷◌ c s) = code c ∷ text s

-- The decimal digits of `n`, on fuel. `show` gives more fuel than there are digits.
pub digits : ℕ → ℕ → Text
digits zero n = []
digits (suc fuel) n =
    let front = digits fuel (n / 10) in
    if ltb n 10 then (b'0' + n) ∷ [] else front ++ (b'0' + n % 10) ∷ []

-- `{n}`
unfoldable pub show : ℕ → Text
unfolding digits
show n = digits (suc n) n

abbrev pub zeros : ℕ → Text → Text
zeros zero t = t
zeros (suc n) t = b'0' ∷ zeros n t

-- `{n:0w}`
unfoldable pub show_padded : ℕ → ℕ → Text
unfolding show
show_padded w n = zeros (w - length (show n)) (show n)

length-zeros : (n : ℕ) (t : Text) → length (zeros n t) ≡ n + length t
length-zeros zero t = omega arith
length-zeros (suc n) t = omega (arith, length-zeros n t)

pub length-show_padded : (w n : ℕ) → length (show n) ≤ w → length (show_padded w n) ≡ w
unfolding show_padded
length-show_padded w n h = omega (arith, length-zeros (w - length (show n)) (show n))

-- Fuel above the number leaves no digit out.
digits_more : (f g n : ℕ) → n < f → n < g → digits f n ≡ digits g n
unfolding digits
digits_more zero g n hf hg = elim hf [ ]
digits_more (suc f) zero n hf hg = elim hg [ ]
digits_more (suc f) (suc g) n hf hg = ground (arith, digits_more f g (n / 10))

pub show_unfold :
    (n : ℕ) → show n ≡ (if ltb n 10 then (b'0' + n) ∷ [] else show (n / 10) ++ (b'0' + n % 10) ∷ [])
unfolding show
show_unfold n = ground (arith, digits_more n (suc (n / 10)) (n / 10))

pub length-show_lt_100 : (n : ℕ) → n < 100 → length (show n) ≤ 2
length-show_lt_100 n h = ground (
  arith,
  show_unfold n,
  show_unfold (n / 10),
  length-append {0} (show (n / 10)) ((b'0' + n % 10) ∷ []),
)

pub length-show_lt_10000 : (n : ℕ) → n < 10000 → length (show n) ≤ 4
length-show_lt_10000 n h = ground (
  arith,
  show_unfold n,
  show_unfold (n / 10),
  length-show_lt_100 (n / 100),
  length-append {0} (show (n / 10)) ((b'0' + n % 10) ∷ []),
  length-append {0} (show (n / 10 / 10)) ((b'0' + (n / 10) % 10) ∷ []),
)
