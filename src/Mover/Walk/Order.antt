-- ===== src/Mover/Walk/Order.antt =====
-- The order in which `walk_delete` of src/bin/file-mover.rs collects directories.
use web_davs_zk.Common.{◌≡◌, ◌⊎◌, true, some, List, [], ◌∷◌, ◌++◌}
use web_davs_zk.Common.Text.{Text}
use web_davs_zk.Io.{Os, ok, IsEntry}
use web_davs_zk.Io.Paths.{join}
use web_davs_zk.Mover.Walk.{Found, Walk}

-- A text of the list.
abbrev pub Among : Text → List Text → Type 0
Among p ds = (xs : List Text) × (ys : List Text) × (ds ≡ xs ++ p ∷ ys)

-- Every directory that a walk from `src` has collected is `src` itself, which is the first, or it
-- is an entry of a directory that was collected before it, and is a directory itself.
pub data ParentFirst (os : Os) (s : os.State) (src : Text) : List Text → Type 0 where
  none_yet : (ds : List Text) → ds ≡ [] → ParentFirst os s src ds
  root : (ds : List Text) → os.is_dir src s ≡ true → ds ≡ src ∷ [] → ParentFirst os s src ds
  added :
      (p name : Text) (ds ds' : List Text)
      → ParentFirst os s src ds
      → Among p ds
      → IsEntry os s p name
      → os.is_dir (join p name) s ≡ true
      → ds' ≡ ds ++ join p name ∷ []
      → ParentFirst os s src ds'

-- A path that is to be walked: the source itself, at the start, or an entry.
abbrev Fits : (os : Os) → os.State → Text → Text → List Text → Type 0
Fits os s src d ds =
    ((d ≡ src) × (ds ≡ []))
    ⊎ ((p : Text) × (name : Text) × (d ≡ join p name) × IsEntry os s p name × Among p ds)

abbrev Extends : List Text → List Text → Type 0
Extends ds ds' = (more : List Text) × (ds' ≡ ds ++ more)

module _ (os : Os) (s : os.State) (src : Text) where
  -- What holds of a walk that began with `ds` and succeeds.
  abbrev Good : List Text → Walk Text → Type 0
  Good ds w = (a : Found Text) → w ≡ some (ok a) → ParentFirst os s src a.dirs × Extends ds a.dirs
