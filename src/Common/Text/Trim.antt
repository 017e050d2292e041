-- ===== src/Common/Text/Trim.antt =====
-- `str::trim`, `trim_end_matches`, `trim_start_matches` and `to_ascii_lowercase`.
use Prim.Native.Nat.{ℕ, ◌+◌}
use mathlib.Core.Bool.{Bool, ◌&&◌, ◌||◌}
use mathlib.Core.List.{[], ◌∷◌, map, reverse}
use web_davs_zk.Common.Tests.{leb, ◌==◌, nat_eq, list_eq, list_beq, if◌then◌else◌}
use web_davs_zk.Common.Text.{Text}

-- The characters with the Unicode property White_Space.
unfoldable pub is_whitespace : ℕ → Bool
is_whitespace c =
    leb 0x09 c && leb c 0x0d
    || c == 0x20
    || c == 0x85
    || c == 0xa0
    || c == 0x1680
    || leb 0x2000 c && leb c 0x200a
    || c == 0x2028
    || c == 0x2029
    || c == 0x202f
    || c == 0x205f
    || c == 0x3000

unfoldable pub skip_while : (ℕ → Bool) → Text → Text
skip_while f [] = []
skip_while f (c ∷ t) = let rest = skip_while f t in if f c then rest else c ∷ t

unfoldable pub trim_start_matches : ℕ → Text → Text
unfolding skip_while
trim_start_matches c t = skip_while (λ x. x == c) t

unfoldable pub trim_end_matches : ℕ → Text → Text
unfolding skip_while
trim_end_matches c t = reverse (skip_while (λ x. x == c) (reverse t))

unfoldable pub trim : Text → Text
unfolding skip_while is_whitespace
trim t = reverse (skip_while is_whitespace (reverse (skip_while is_whitespace t)))

abbrev lower : ℕ → ℕ
lower c = if leb b'A' c && leb c b'Z' then c + 32 else c

unfoldable pub to_ascii_lowercase : Text → Text
to_ascii_lowercase = map lower

unfoldable pub eq_ignore_ascii_case : Text → Text → Bool
unfolding to_ascii_lowercase list_beq
eq_ignore_ascii_case a b = to_ascii_lowercase a == to_ascii_lowercase b
