-- ===== src/Common/Sort.antt =====
-- `sort` on texts and `sort_by` on a key that is a text: stable, by insertion from the end.
use mathlib.Core.Path.{◌∙◌, ◌≡◌, refl, ap}
use mathlib.Core.Logic.{inl, inr}
use mathlib.Core.Bool.{Bool, true, false}
use mathlib.Core.List.{List, [], ◌∷◌, Perm}
use mathlib.Core.List.Perm
use native.Mathlib.Omega.{arith}
use Prim.Native.Nat.{suc}
use web_davs_zk.Common.Tests.{ltb, ◌==◌, nat_eq, if◌then◌else◌, Bool-cases}
use web_davs_zk.Common.Lists.{length, All}
use web_davs_zk.Common.Text.{Text}

-- The order of texts by their code points, which is that of their UTF-8 bytes.
unfoldable pub text_le : Text → Text → Bool
text_le [] t = true
text_le (c ∷ s) [] = false
text_le (c ∷ s) (d ∷ t) = let rest = text_le s t in if c == d then rest else ltb c d

pub text_le_total : (s t : Text) → text_le s t ≡ false → text_le t s ≡ true
unfolding text_le
text_le_total [] t e = cc
text_le_total (c ∷ s) [] e = refl
text_le_total (c ∷ s) (d ∷ t) e = ground (arith, text_le_total s t)

module _ {ℓ} {A : Type ℓ} (key : A → Text) where
  unfoldable pub place : A → List A → List A
  place x [] = x ∷ []
  place x (y ∷ ys) =
      let rest = place x ys in if text_le (key x) (key y) then x ∷ y ∷ ys else y ∷ rest

  unfoldable pub sort_by : List A → List A
  unfolding place
  sort_by [] = []
  sort_by (x ∷ xs) = place x (sort_by xs)

  -- Neighbours are in order.
  abbrev pub IsSorted : List A → Type 0
  IsSorted [] = Unit {0}
  IsSorted (x ∷ []) = Unit {0}
  IsSorted (x ∷ y ∷ l) = (text_le (key x) (key y) ≡ true) × IsSorted (y ∷ l)

  place-perm : (x : A) (l : List A) → Perm (place x l) (x ∷ l)
  unfolding place
  place-perm x [] = Perm.rfl
  place-perm x (y ∷ ys) = elim (Bool-cases (text_le (key x) (key y))) [
    | inl first ↦ rw (first, place) Perm.rfl
    | inr later ↦ rw (later, place) (Perm.trans (Perm.cons y (place-perm x ys)) (Perm.swap x y ys))
  ]

  pub sort_by-perm : (xs : List A) → Perm (sort_by xs) xs
  unfolding sort_by
  sort_by-perm [] = Perm.rfl
  sort_by-perm (x ∷ xs) = Perm.trans (place-perm x (sort_by xs)) (Perm.cons x (sort_by-perm xs))

  place-IsSorted_below :
      (x y : A) (ys : List A)
      → text_le (key y) (key x) ≡ true
      → IsSorted (y ∷ ys)
      → IsSorted (y ∷ place x ys)
  unfolding place
  place-IsSorted_below x y [] below s = (below, tt)
  place-IsSorted_below x y (z ∷ zs) below (yz, s) = elim (Bool-cases (text_le (key x) (key z))) [
    | inl first ↦ rw (first, place) (below, (first, s))
    | inr later ↦
        rw (later, place) (yz, place-IsSorted_below x z zs (text_le_total (key x) (key z) later) s)
  ]

  place-IsSorted : (x : A) (l : List A) → IsSorted l → IsSorted (place x l)
  unfolding place
  place-IsSorted x [] s = tt
  place-IsSorted x (y ∷ ys) s = elim (Bool-cases (text_le (key x) (key y))) [
    | inl first ↦ rw (first, place) (first, s)
    | inr later ↦
        rw (later, place) (place-IsSorted_below x y ys (text_le_total (key x) (key y) later) s)
  ]

  pub sort_by-IsSorted : (xs : List A) → IsSorted (sort_by xs)
  unfolding sort_by
  sort_by-IsSorted [] = tt
  sort_by-IsSorted (x ∷ xs) = place-IsSorted x (sort_by xs) (sort_by-IsSorted xs)

  length-place : (x : A) (l : List A) → length (place x l) ≡ suc (length l)
  unfolding place
  length-place x [] = refl
  length-place x (y ∷ ys) = ground (arith, length-place x ys)

  pub length-sort_by : (xs : List A) → length (sort_by xs) ≡ length xs
  unfolding sort_by
  length-sort_by [] = refl
  length-sort_by (x ∷ xs) = length-place x (sort_by xs) ∙ ap suc (length-sort_by xs)

  module _ {κ} (P : A → Type κ) where
    All-place : (x : A) (l : List A) → P x → All P l → All P (place x l)
    unfolding place
    All-place x [] p ps = (p, tt)
    All-place x (y ∷ ys) p ps = elim (Bool-cases (text_le (key x) (key y))) [
      | inl first ↦ rw (first, place) (p, ps)
      | inr later ↦ rw (later, place) (ps.0, All-place x ys p ps.1)
    ]

    pub All-sort_by : (xs : List A) → All P xs → All P (sort_by xs)
    unfolding sort_by
    All-sort_by [] ps = tt
    All-sort_by (x ∷ xs) ps = All-place x (sort_by xs) ps.0 (All-sort_by xs ps.1)
