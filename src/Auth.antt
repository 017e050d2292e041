-- ===== src/Auth.antt =====
-- src/auth.rs: the Basic authentication guard.
pub mod Laws
use web_davs_zk.Common.{
  ℕ, ◌+◌, Bool, true, false, Option, none, some, List, [], ◌∷◌, ◌++◌, ◌&&◌, String, ◌==◌, nat_eq,
  length, take, drop, if◌then◌else◌,
}
use web_davs_zk.Common.Text.{Text, text}
use web_davs_zk.Common.Text.Split.{strip_prefix, position}
use web_davs_zk.External.{Codec}

-- The texts are the bytes of the source's strings.
pub record BasicAuth : Type 0 where
  pub user : List ℕ
  pub pass : List ℕ
  pub realm : Text

-- `headers.get(name).and_then(|v| v.to_str().ok())`, by name
abbrev pub Headers : Type 0
Headers = String → Option Text

pub record Response : Type 0 where
  pub status : ℕ
  pub headers : List (String × Text)
  pub body : List ℕ

unfoldable pub challenge : BasicAuth → Response
challenge a = record {
  status = 401;
  headers =
      ("www-authenticate", text "Basic realm=\"" ++ (a.realm ++ text "\", charset=\"UTF-8\""))
      ∷ ("content-length", text "0")
      ∷ [];
  body = [];
}

abbrev tail : List ℕ → List ℕ
tail [] = []
tail (x ∷ xs) = xs

module _ (codec : Codec) where
  open codec use {decode, ct_eq}

  -- From `decoded.split_at(pos)` on.
  check_at : BasicAuth → List ℕ → ℕ → Bool
  check_at a decoded pos =
      let user = take pos decoded in
      let pass = tail (drop pos decoded) in
      let user_ok = length user == length a.user && ct_eq user a.user in
      let pass_ok = length pass == length a.pass && ct_eq pass a.pass in user_ok && pass_ok

  check_decoded : BasicAuth → List ℕ → Bool
  check_decoded a decoded = elim (position b':' decoded) [
    | none ↦ false
    | some pos ↦ check_at a decoded pos
  ]

  check_encoded : BasicAuth → Text → Bool
  check_encoded a encoded = elim (decode encoded) [
    | none ↦ false
    | some decoded ↦ check_decoded a decoded
  ]

  check_value : BasicAuth → Text → Bool
  check_value a value = elim (strip_prefix (text "Basic ") value) [
    | none ↦ false
    | some encoded ↦ check_encoded a encoded
  ]

  unfoldable pub is_authorized : BasicAuth → Headers → Bool
  unfolding check_value check_encoded check_decoded check_at
  is_authorized a headers = elim (headers "authorization") [
    | none ↦ false
    | some value ↦ check_value a value
  ]
