-- ===== src/Auth/Laws.antt =====
-- Who passes the guard of src/auth.rs.
use web_davs_zk.Common.{
  ℕ, suc, ◌≡◌, Option-cases, inl, inr, refl, sym, ap, ◌∙◌, ◌↔◌, true, some, List, ◌∷◌, ◌++◌, arith,
  length, take, drop, take-length-append, drop-length-append,
}
use mathlib.Core.Path.{subst, ap₂}
use mathlib.Core.Option.{some-injective}
use web_davs_zk.Common.Text.{Text, text}
use web_davs_zk.Common.Text.Split.{
  Lacks, strip_prefix, strip_prefix-append, strip_prefix-eq-some, position, position-eq-some,
  position-append,
}
use web_davs_zk.External.{Codec}
use web_davs_zk.Auth.{
  BasicAuth, Headers, check_at, check_decoded, check_encoded, check_value, is_authorized,
}

-- The `Authorization` header is `Basic ` and text that decodes to the user, a colon and the
-- password of the settings, and the user has no colon.
abbrev pub Grants : Codec → BasicAuth → Headers → Type 0
Grants codec a headers =
    (encoded : Text) × (headers "authorization" ≡ some (text "Basic " ++ encoded))
    × (codec.decode encoded ≡ some (a.user ++ b':' ∷ a.pass))
    × Lacks b':' a.user

-- The guard of `decoded`, which holds the user, a colon and the password.
module _ (codec : Codec) (a : BasicAuth) where
  open codec use {decode, ct_eq, ct_eq_iff}

  check_at-append :
      (user pass : List ℕ)
      → (check_at codec a (user ++ b':' ∷ pass) (length user) ≡ true)
        ↔ ((user ≡ a.user) × (pass ≡ a.pass))
  unfolding check_at
  check_at-append user pass =
      rw (take-length-append, drop-length-append)
        (ground (arith, ct_eq_iff user a.user, ct_eq_iff pass a.pass))

  check_decoded-append : Lacks b':' a.user → check_decoded codec a (a.user ++ b':' ∷ a.pass) ≡ true
  unfolding check_decoded
  check_decoded-append h =
      rw (position-append b':' a.user a.pass h, check_decoded)
        ((check_at-append a.user a.pass).1 (refl, refl))

  check_at-eq-true :
      (user pass : List ℕ) (i : ℕ)
      → Lacks b':' user
      → position b':' (user ++ b':' ∷ pass) ≡ some i
      → check_at codec a (user ++ b':' ∷ pass) i ≡ true
      → (user ++ b':' ∷ pass ≡ a.user ++ b':' ∷ a.pass) × Lacks b':' a.user
  check_at-eq-true user pass i h e t =
      let (same_user, same_pass) = (check_at-append user pass).0 (
        subst (λ n. check_at codec a (user ++ b':' ∷ pass) n ≡ true)
          (some-injective _ _ (sym e ∙ position-append b':' user pass h)) t) in
      (ap₂ (λ u p. u ++ b':' ∷ p) same_user same_pass, subst (Lacks b':') same_user h)

  check_decoded-eq-true :
      (decoded : List ℕ)
      → check_decoded codec a decoded ≡ true
      → (decoded ≡ a.user ++ b':' ∷ a.pass) × Lacks b':' a.user
  unfolding check_decoded
  check_decoded-eq-true decoded h = elim (Option-cases (position b':' decoded)) [
    | inl e ↦ absurd (ground (arith, e))
    | inr (i, e) ↦
        let (whole, lacks) = position-eq-some b':' decoded i e in
        let r =
          check_at-eq-true (take i decoded) (drop (suc i) decoded) i lacks (rw (← whole) e)
            (rw (← whole) (rw (e, check_decoded) at h)) in
        (whole ∙ r.0, r.1)
  ]

  abbrev Decodes : Text → Type 0
  Decodes encoded = (decode encoded ≡ some (a.user ++ b':' ∷ a.pass)) × Lacks b':' a.user

  check_encoded-Decodes : (encoded : Text) → check_encoded codec a encoded ≡ true → Decodes encoded
  unfolding check_encoded
  check_encoded-Decodes encoded h = elim (Option-cases (decode encoded)) [
    | inl e ↦ absurd (ground (arith, e))
    | inr (decoded, e) ↦
        let (whole, lacks) = check_decoded-eq-true decoded (rw (e, check_encoded) at h) in
        (e ∙ ap some whole, lacks)
  ]

  check_value-Decodes :
      (value : Text)
      → check_value codec a value ≡ true
      → (encoded : Text) × (value ≡ text "Basic " ++ encoded) × Decodes encoded
  unfolding check_value
  check_value-Decodes value h = elim (Option-cases (strip_prefix (text "Basic ") value)) [
    | inl e ↦ absurd (ground (arith, e))
    | inr (encoded, e) ↦ (
      encoded,
      strip_prefix-eq-some (text "Basic ") value e,
      check_encoded-Decodes encoded (rw (e, check_value) at h),
    )
  ]

  is_authorized-header :
      (headers : Headers)
      → is_authorized codec a headers ≡ true
      → (value : Text) × (headers "authorization" ≡ some value) × (check_value codec a value ≡ true)
  unfolding is_authorized
  is_authorized-header headers h = elim (Option-cases (headers "authorization")) [
    | inl e ↦ absurd (ground (arith, e))
    | inr (value, e) ↦ (value, e, rw (e, is_authorized) at h)
  ]

  is_authorized-Grants :
      (headers : Headers) → is_authorized codec a headers ≡ true → Grants codec a headers
  is_authorized-Grants headers h =
      let (value, e, t) = is_authorized-header headers h in
      let (encoded, split, decodes) = check_value-Decodes value t in
      (encoded, e ∙ ap some split, decodes.0, decodes.1)

  Grants-is_authorized :
      (headers : Headers) → Grants codec a headers → is_authorized codec a headers ≡ true
  unfolding is_authorized check_value check_encoded
  Grants-is_authorized headers (encoded, e, decodes, lacks) =
      rw (e, is_authorized)
        (rw (strip_prefix-append (text "Basic ") encoded, check_value)
          (rw (decodes, check_encoded) (check_decoded-append lacks)))

  -- A request passes exactly when its `Authorization` header is `Basic ` and text that decodes to
  -- the user, a colon and the password of the settings, and the user has no colon.
  pub is_authorized_iff :
      (headers : Headers) → (is_authorized codec a headers ≡ true) ↔ Grants codec a headers
  is_authorized_iff headers = (is_authorized-Grants headers, Grants-is_authorized headers)
