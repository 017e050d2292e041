-- ===== src/External.antt =====
-- The crates that the program calls, as far as src/auth.rs and src/server.rs rely on them.
use web_davs_zk.Common.{ℕ, Bool, true, ◌≡◌, ◌↔◌, Option, List}
use web_davs_zk.Common.Text.{Text}

-- `base64`'s STANDARD engine, and `ct_eq` of `subtle`, which compares in constant time.
pub record Codec : Type 0 where
  pub decode : Text → Option (List ℕ)
  pub ct_eq : List ℕ → List ℕ → Bool
  pub ct_eq_iff : (a b : List ℕ) → (ct_eq a b ≡ true) ↔ (a ≡ b)
