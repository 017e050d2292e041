-- ===== src/Common/Text/Split.antt =====
-- `str::strip_prefix`, `starts_with`, `ends_with`, `contains`, `find`, `split` and `split_once`.
use Prim.Native.Nat.{ℕ, zero, suc}
use mathlib.Core.Path.{◌≡◌, refl}
use mathlib.Core.Logic.{◌≢◌}
use mathlib.Core.Bool.{Bool, true, false, ◌&&◌, ◌||◌}
use mathlib.Core.Option
use mathlib.Core.Option.{Option, none, some}
use mathlib.Core.List.{List, [], ◌∷◌, ◌++◌, reverse}
use native.Mathlib.Omega.{arith}
use web_davs_zk.Common.Tests.{◌==◌, nat_eq, list_eq, if◌then◌else◌}
use web_davs_zk.Common.Lists.{length, take, drop}
use web_davs_zk.Common.Text.{Text}

unfoldable pub strip_prefix : Text → Text → Option Text
strip_prefix [] t = some t
strip_prefix (p ∷ ps) [] = none
strip_prefix (p ∷ ps) (c ∷ t) = if p == c then strip_prefix ps t else none

unfoldable pub starts_with : Text → Text → Bool
starts_with [] t = true
starts_with (p ∷ ps) [] = false
starts_with (p ∷ ps) (c ∷ t) = p == c && starts_with ps t

unfoldable pub ends_with : Text → Text → Bool
unfolding starts_with
ends_with p t = starts_with (reverse p) (reverse t)

unfoldable pub contains : Text → Text → Bool
unfolding starts_with
contains p [] = starts_with p []
contains p (c ∷ t) = starts_with p (c ∷ t) || contains p t

-- The place of the first `c`.
unfoldable pub position : ℕ → Text → Option ℕ
position c [] = none
position c (x ∷ t) = let later = position c t in if x == c then some 0 else Option.map suc later

abbrev pub cons_head : ℕ → List Text → List Text
cons_head x [] = (x ∷ []) ∷ []
cons_head x (w ∷ ws) = (x ∷ w) ∷ ws

unfoldable pub split : ℕ → Text → List Text
split c [] = [] ∷ []
split c (x ∷ t) = let rest = split c t in if x == c then [] ∷ rest else cons_head x rest

abbrev cons_fst : ℕ → Text × Text → Text × Text
cons_fst x (a, b) = (x ∷ a, b)

unfoldable pub split_once : ℕ → Text → Option (Text × Text)
split_once c [] = none
split_once c (x ∷ t) =
    let later = split_once c t in if x == c then some ([], t) else Option.map (cons_fst x) later

-- No `c` occurs in the text.
abbrev pub Lacks : ℕ → Text → Type 0
Lacks c [] = Unit
Lacks c (x ∷ t) = (x ≢ c) × Lacks c t

pub strip_prefix-append : (p t : Text) → strip_prefix p (p ++ t) ≡ some t
unfolding strip_prefix
strip_prefix-append [] t = refl
strip_prefix-append (c ∷ p) t = ground (arith, strip_prefix-append p t)

pub strip_prefix-eq-some : (p t : Text) {r : Text} → strip_prefix p t ≡ some r → t ≡ p ++ r
unfolding strip_prefix
strip_prefix-eq-some [] t h = cc
strip_prefix-eq-some (c ∷ p) [] h = cc
strip_prefix-eq-some (c ∷ p) (x ∷ t) {r} h = ground (arith, strip_prefix-eq-some p t {r = r})

-- What `split_once` returns are the parts before and after the first `c`.
pub split_once-eq-some :
    (c : ℕ) (t a b : Text) → split_once c t ≡ some (a, b) → (t ≡ a ++ c ∷ b) × Lacks c a
unfolding split_once
split_once-eq-some c [] a b h = absurd (grind arith)
split_once-eq-some c (x ∷ t) [] b h = ground arith
split_once-eq-some c (x ∷ t) (y ∷ a) b h = ground (arith, split_once-eq-some c t a b)

pub split_once-append : (c : ℕ) (a b : Text) → Lacks c a → split_once c (a ++ c ∷ b) ≡ some (a, b)
unfolding split_once
split_once-append c [] b h = ground arith
split_once-append c (x ∷ a) b h = ground (arith, split_once-append c a b h.1)

-- `position` finds the `c` that `split_once` splits at.
pub position-eq-some :
    (c : ℕ) (t : Text) (i : ℕ)
    → position c t ≡ some i
    → (t ≡ take i t ++ c ∷ drop (suc i) t) × Lacks c (take i t)
unfolding position
position-eq-some c [] i h = absurd (grind arith)
position-eq-some c (x ∷ t) zero h = ground arith
position-eq-some c (x ∷ t) (suc i) h = ground (arith, position-eq-some c t i)

pub position-append : (c : ℕ) (a b : Text) → Lacks c a → position c (a ++ c ∷ b) ≡ some (length a)
unfolding position
position-append c [] b h = ground arith
position-append c (x ∷ a) b h = ground (arith, position-append c a b h.1)
