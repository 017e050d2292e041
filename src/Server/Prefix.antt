-- ===== src/Server/Prefix.antt =====
-- The URL prefix of src/server.rs.
use web_davs_zk.Common.{
  ℕ, ◌≡◌, ◌≢◌, ◌⊎◌, refl, inl, inr, Bool-cases, some, [], ◌∷◌, ◌++◌, ◌==◌, list_eq, nat_eq, nat_beq,
  arith, reverse, if◌then◌else◌,
}
use mathlib.Core.Path.{subst}
use mathlib.Core.Option.{some-injective}
use mathlib.Core.List.{reverse-append, reverse-reverse}
use web_davs_zk.Common.Text.{Text, text}
use web_davs_zk.Common.Text.Trim.{trim, trim_end_matches, skip_while}
use web_davs_zk.Common.Text.Split.{starts_with}
use web_davs_zk.Server.{url_prefix}

-- What is left is empty or starts with another character.
abbrev HeadDiffers : ℕ → Text → Type 0
HeadDiffers c [] = Unit
HeadDiffers c (x ∷ t) = x ≢ c

skip_while-HeadDiffers : (c : ℕ) (t : Text) → HeadDiffers c (skip_while (λ x. x == c) t)
unfolding skip_while
skip_while-HeadDiffers c [] = tt
skip_while-HeadDiffers c (x ∷ t) = ground (arith, skip_while-HeadDiffers c t)

-- `t` ends in something else than `c`, or is empty.
abbrev pub LastDiffers : ℕ → Text → Type 0
LastDiffers c t = HeadDiffers c (reverse t)

trim_end_matches-LastDiffers : (c : ℕ) (t : Text) → LastDiffers c (trim_end_matches c t)
unfolding trim_end_matches
trim_end_matches-LastDiffers c t = rw reverse-reverse (skip_while-HeadDiffers c (reverse t))

HeadDiffers-append :
    (c x : ℕ) (t s : Text) → HeadDiffers c (t ++ x ∷ []) → HeadDiffers c ((t ++ x ∷ []) ++ s)
HeadDiffers-append c x [] s h = h
HeadDiffers-append c x (y ∷ t) s h = h

LastDiffers-cons : (c x y : ℕ) (t : Text) → LastDiffers c (x ∷ t) → LastDiffers c (y ∷ x ∷ t)
LastDiffers-cons c x y t h =
    rw (reverse-append (y ∷ []) (x ∷ t), reverse-append (x ∷ []) t)
      (HeadDiffers-append c x (reverse t) _ (rw (reverse-append (x ∷ []) t) at h))

abbrev IsPrefix : Text → Type 0
IsPrefix prefix = (rest : Text) × (prefix ≡ b'/' ∷ rest) × ((rest ≡ []) ⊎ LastDiffers b'/' prefix)

slash_in_front :
    (bare : Text)
    → LastDiffers b'/' bare
    → IsPrefix (if starts_with (text "/") bare then bare else b'/' ∷ bare)
unfolding starts_with
slash_in_front [] h = ([], refl, inl refl)
slash_in_front (x ∷ t) h = elim (Bool-cases (nat_beq b'/' x)) [
  | inl slash ↦ rw slash (t, ground arith, inr h)
  | inr other ↦ rw other (x ∷ t, refl, inr (LastDiffers-cons b'/' x b'/' t h))
]

-- A prefix that is set begins with a slash, and is `/` itself or ends in another character.
pub url_prefix_shape :
    (raw prefix : Text)
    → url_prefix raw ≡ some prefix
    → (rest : Text) × (prefix ≡ b'/' ∷ rest) × ((rest ≡ []) ⊎ LastDiffers b'/' prefix)
unfolding url_prefix
url_prefix_shape raw prefix h = elim (Bool-cases (trim raw == [])) [
  | inl blank ↦ absurd (grind arith)
  | inr full ↦ subst IsPrefix (some-injective _ _ (rw full at h)) (
      slash_in_front (trim_end_matches b'/' (trim raw))
        (trim_end_matches-LastDiffers b'/' (trim raw)))
]
