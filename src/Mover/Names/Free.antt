-- ===== src/Mover/Names/Free.antt =====
-- `free_dst` of src/bin/file-mover.rs.
use web_davs_zk.Common.{ℕ, zero, suc, ◌≡◌, ◌⊎◌, refl, inr, true, false, arith}
use native.Mathlib.Numerals.{add-one}
use web_davs_zk.Common.Text.{Text}
use web_davs_zk.Io.{Os}
use web_davs_zk.Mover.Names.{candidate, try_free, free_dst}

module _ (os : Os) (dst : Text) (s : os.State) where
  -- The `left` candidates from the number `i` on all exist.
  pub AllExist : ℕ → ℕ → Type 0
  AllExist zero i = Unit {0}
  AllExist (suc left) i = (os.exists (candidate os dst i) s ≡ true) × AllExist left (suc i)

  try_free_lem :
      (left i : ℕ)
      → (os.exists (try_free os left i dst s) s ≡ false)
        ⊎ (AllExist left i × (try_free os left i dst s ≡ candidate os dst 999))
  unfolding try_free AllExist
  try_free_lem zero i = inr (tt, refl)
  try_free_lem (suc left) i = rw add-one (ground (arith, try_free_lem left (suc i)))

  -- The destination that `free_dst` picks does not exist, unless the one asked for and all of its
  -- 998 numbered variants exist; then it picks the variant 999, which does exist.
  pub free_dst_lem :
      (os.exists (free_dst os dst s) s ≡ false)
      ⊎ ((os.exists dst s ≡ true) × AllExist 998 2 × (free_dst os dst s ≡ candidate os dst 999))
  unfolding free_dst
  free_dst_lem = ground (arith, try_free_lem 998 2)
