-- ===== src/Sudo/Tree.antt =====
-- The tree operations of src/bin/file-mover-sudo.rs, and what it does where the destination exists.
use web_davs_zk.Common.{
  ℕ, zero, suc, true, false, Option, none, some, List, [], ◌∷◌, ◌||◌, not, ◌==◌, nat_eq, list_eq,
  if◌then◌else◌,
}
use web_davs_zk.Common.Text.{Text, text}
use web_davs_zk.Io.{Os, Result, ok, err}
use web_davs_zk.Io.Paths.{join}
use web_davs_zk.Mover.Names.{free_dst}
use web_davs_zk.Mover.Walk.{copy_file}

module _ (os : Os) where
  -- The rest of a loop goes on from where the entry has left the file system.
  abbrev pub then_go :
      Option (Result (Unit {0}) × os.State)
      → (os.State → Option (Result (Unit {0}) × os.State))
      → Option (Result (Unit {0}) × os.State)
  then_go none k = none
  then_go (some (err e, s)) k = some (err e, s)
  then_go (some (ok _, s)) k = k s

  unfoldable pub copy_entries :
      (Text → os.State → Option (Result (Unit {0}) × os.State))
      → List (Result Text)
      → os.State
      → Option (Result (Unit {0}) × os.State)
  copy_entries copy [] s = some (ok tt, s)
  copy_entries copy (err e ∷ names) s = some (err e, s)
  copy_entries copy (ok name ∷ names) s = then_go (copy name s) (λ s'. copy_entries copy names s')

  abbrev pub copy_dir :
      Result (List (Result Text))
      → (Text → os.State → Option (Result (Unit {0}) × os.State))
      → os.State
      → Option (Result (Unit {0}) × os.State)
  copy_dir (err e) copy s = some (err e, s)
  copy_dir (ok names) copy s = copy_entries copy names s

  abbrev pub forget : Result ℕ × os.State → Result (Unit {0}) × os.State
  forget (ok _, s) = (ok tt, s)
  forget (err e, s) = (err e, s)

  -- `none` means that the tree is deeper than the fuel.
  unfoldable pub copy_recursive : ℕ → Text → Text → os.State → Option (Result (Unit {0}) × os.State)
  unfolding copy_entries
  copy_recursive zero src dst s = none
  copy_recursive (suc fuel) src dst s =
      let copy =
        λ (name : Text) (t : os.State). copy_recursive fuel (join src name) (join dst name) t in
      let made = os.create_dir_all dst s in
      elim (os.is_dir src s) [
        | true ↦ then_go (some made) (λ t. copy_dir (os.read_dir src t) copy t)
        | false ↦ some (forget (copy_file os src dst s))
      ]

  unfoldable pub remove_recursive : Text → os.State → Result (Unit {0}) × os.State
  remove_recursive p s = if os.is_dir p s then os.remove_dir_all p s else os.remove_file p s

  -- Where the file or tree goes, or `none` for the answer that there is a conflict.
  unfoldable pub choose : Text → Text → os.State → Option Text
  choose strategy dst s =
      if not (os.exists dst s)
      then some dst
      else if strategy == text "rename"
      then some (free_dst os dst s)
      else if strategy == text "merge" || strategy == text "overwrite"
      then some dst
      else none
