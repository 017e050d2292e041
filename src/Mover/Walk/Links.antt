-- ===== src/Mover/Walk/Links.antt =====
-- What `walk_files` and `walk_delete` of src/bin/file-mover.rs go through.
use mathlib.Core.List.{append-nil, append_assoc}
use web_davs_zk.Common.{
  ℕ, suc, ◌+◌, ◌%◌, ◌^◌, ◌≡◌, ◌∙◌, refl, not, if◌then◌else◌, true, false, none, some, List, [], ◌∷◌,
  ◌++◌, map,
}
use web_davs_zk.Common.Text.{Text}
use web_davs_zk.Io.{Os, IoError, Result, ok, err, Metadata}
use web_davs_zk.Io.Paths.{join}
use web_davs_zk.Mover.Walk.{
  Found, Walk, nothing_found, then_entries, each_entry, read_entries, add_file, add_deleted,
  walk_files, walk_delete,
}

abbrev Returns : {A : Type 0} → Walk A → Type 0
Returns {A} w = (r : Result (Found A)) × (w ≡ some r)

then_entries-Returns :
    {A : Type 0} (w : Walk A) (k : Found A → Walk A)
    → Returns w
    → ((acc : Found A) → Returns (k acc))
    → Returns (then_entries w k)
then_entries-Returns none k (r, e) h = cc
then_entries-Returns (some (err x)) k r h = (err x, refl)
then_entries-Returns (some (ok acc)) k r h = h acc

module _ (os : Os) (s : os.State) where
  -- The tree at a path, as `is_dir` and `read_dir` show it: the fuel that suffices for it.
  mutual
    pub data Within : ℕ → Text → Type 0 where
      leaf : (n : ℕ) (path : Text) → os.is_dir path s ≡ false → Within (suc n) path
      unreadable :
          (n : ℕ) (path : Text) (e : IoError)
          → os.is_dir path s ≡ true
          → os.read_dir path s ≡ err e
          → Within (suc n) path
      node :
          (n : ℕ) (path : Text) (names : List (Result Text))
          → os.is_dir path s ≡ true
          → os.read_dir path s ≡ ok names
          → AllWithin n path names
          → Within (suc n) path

    pub data AllWithin : ℕ → Text → List (Result Text) → Type 0 where
      no_more : (n : ℕ) (path : Text) → AllWithin n path []
      broken :
          (n : ℕ) (path : Text) (e : IoError) (names : List (Result Text))
          → AllWithin n path (err e ∷ names)
      entry :
          (n : ℕ) (path name : Text) (names : List (Result Text))
          → Within n (join path name)
          → AllWithin n path names
          → AllWithin n path (ok name ∷ names)

  add_file-Returns :
      (src rel : Text) (md : Result Metadata) (acc : Found (Text × Text))
      → Returns (add_file os src rel md acc)
  add_file-Returns src rel (ok md) acc = (_, refl)
  add_file-Returns src rel (err e) acc = (_, refl)

  add_deleted-Returns :
      (src : Text) (md : Result Metadata) (acc : Found Text) → Returns (add_deleted os src md acc)
  add_deleted-Returns src (ok md) acc = (_, refl)
  add_deleted-Returns src (err e) acc = (_, refl)

  -- What the two walks share: `p` is what a walk takes along to the entries of a directory.
  module _ {A P : Type 0} (walk : ℕ → Text → P → Found A → Walk A) (next : P → Text → P)
      (at_leaf : (n : ℕ) (path : Text) (p : P) (acc : Found A)
        → os.is_dir path s ≡ false
        → Returns (walk (suc n) path p acc))
      (at_node : (n : ℕ) (path : Text) (p : P) (acc : Found A)
        → os.is_dir path s ≡ true
        → (entered : Found A) × (walk (suc n) path p acc
            ≡ read_entries
                (os.read_dir path s)
                (λ name a. walk n (join path name) (next p name) a)
                entered)) where
    mutual
      unfolding each_entry

      walk-Returns :
          (n : ℕ) (src : Text) → Within n src → (p : P) (acc : Found A) → Returns (walk n src p acc)
      walk-Returns _ _ (leaf n path file) p acc = at_leaf n path p acc file
      walk-Returns _ _ (unreadable n path e folder closed) p acc =
          (err e, (at_node n path p acc folder).1 ∙ rw closed refl)
      walk-Returns _ _ (node n path names folder opened inside) p acc =
          let (entered, same) = at_node n path p acc folder in
          let (r, e) = entries-Returns n path names inside p entered in (r, same ∙ rw opened e)

      entries-Returns :
          (n : ℕ) (src : Text) (names : List (Result Text))
          → AllWithin n src names
          → (p : P) (acc : Found A)
          → Returns (each_entry (λ name a. walk n (join src name) (next p name) a) names acc)
      entries-Returns _ _ _ (no_more n path) p acc = (ok acc, refl)
      entries-Returns _ _ _ (broken n path e names) p acc = (err e, refl)
      entries-Returns _ _ _ (entry n path name names w ws) p acc =
          then_entries-Returns (walk n (join path name) (next p name) acc) _
            (walk-Returns n (join path name) w (next p name) acc)
            (λ a. entries-Returns n path names ws p a)

  -- A walk returns if its fuel is greater than the depth of the tree, however the reading of the
  -- directories and of the entries goes.
  pub walk_files-returns :
      (n : ℕ) (src : Text) (acc : Found (Text × Text))
      → Within n src
      → (r : Result (Found (Text × Text))) × (walk_files os n src [] s acc ≡ some r)
  unfolding walk_files
  walk_files-returns n src acc w =
      walk-Returns (λ n path rel a. walk_files os n path rel s a) join
        (λ n path rel a file.
          rw (file, walk_files) (add_file-Returns path rel (os.symlink_metadata path s) a))
        (λ n path rel a folder. (
          record { files = a.files; dirs = a.dirs ++ rel ∷ []; bytes = a.bytes },
          rw (folder, walk_files) refl,
        ))
        n src w [] acc

  -- The same of the walk of a deletion, which goes through links to directories.
  pub walk_delete-returns :
      (n : ℕ) (src : Text) (acc : Found Text)
      → Within n src
      → (r : Result (Found Text)) × (walk_delete os n src s acc ≡ some r)
  unfolding walk_delete
  walk_delete-returns n src acc w =
      walk-Returns {P = Unit {0}} (λ n path p a. walk_delete os n path s a) (λ p name. p)
        (λ n path p a file.
          rw (file, walk_delete) (add_deleted-Returns path (os.symlink_metadata path s) a))
        (λ n path p a folder. (
          record { files = a.files; dirs = a.dirs ++ path ∷ []; bytes = a.bytes },
          rw (folder, walk_delete) refl,
        ))
        n src w tt acc

  -- Entries that are no directories and can be looked at.
  abbrev pub PlainFiles : Text → List Text → Type 0
  PlainFiles path [] = Unit {0}
  PlainFiles path (name ∷ names) =
      (os.is_dir (join path name) s ≡ false)
      × ((md : Metadata) × (os.symlink_metadata (join path name) s ≡ ok md))
      × PlainFiles path names

  collect_plain :
      (n : ℕ) (path : Text) (names : List Text) (acc : Found Text)
      → PlainFiles path names
      → (bytes : ℕ) × (each_entry
            (λ name a. walk_delete os (suc n) (join path name) s a)
            (map ok names)
            acc
          ≡ some (
              ok (record {
                files = acc.files ++ map (join path) names;
                dirs = acc.dirs;
                bytes = bytes;
              })))
  unfolding each_entry walk_delete
  collect_plain n path [] acc plain = (acc.bytes, rw (append-nil acc.files) refl)
  collect_plain n path (name ∷ names) acc (file, (md, seen), plain) =
      let bytes' = if not md.is_symlink then (acc.bytes + md.len) % 2 ^ 64 else acc.bytes in
      let acc' : Found Text = record {
        files = acc.files ++ join path name ∷ [];
        dirs = acc.dirs;
        bytes = bytes';
      } in
      let (bytes, e) = collect_plain n path names acc' plain in
      (
        bytes,
        rw (file, walk_delete)
            (rw seen
              (e ∙ rw (append_assoc acc.files (join path name ∷ []) (map (join path) names)) refl)),
      )

  -- `walk_delete` does not stop at a symbolic link to a directory: it collects the files of the
  -- directory that the link leads to, and the link as a directory.
  pub walk_delete_through_link :
      (n : ℕ) (link : Text) (names : List Text)
      → os.is_symlink link s ≡ true
      → os.is_dir link s ≡ true
      → os.read_dir link s ≡ ok (map ok names)
      → PlainFiles link names
      → (found : Found Text) × (walk_delete os (suc (suc n)) link s nothing_found ≡ some (ok found))
        × (found.files ≡ map (join link) names)
        × (found.dirs ≡ link ∷ [])
  unfolding walk_delete
  walk_delete_through_link n link names l d r plain =
      let entered : Found Text = record { files = []; dirs = link ∷ []; bytes = 0 } in
      let (bytes, e) = collect_plain n link names entered plain in
      (
        record { files = map (join link) names; dirs = link ∷ []; bytes = bytes },
        rw (d, walk_delete) (rw r e),
        refl,
        refl,
      )
