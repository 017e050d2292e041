-- ===== src/Mover/Walk.antt =====
-- `walk_files`, `walk_delete` and `copy_file` in src/bin/file-mover.rs.
pub mod Links
pub mod Order
use web_davs_zk.Common.{
  ℕ, zero, suc, ◌+◌, ◌%◌, ◌^◌, Bool, true, false, Option, none, some, List, [], ◌∷◌, ◌++◌, length,
  not, if◌then◌else◌,
}
use web_davs_zk.Common.Text.{Text}
use web_davs_zk.Io.{Os, IoError, Result, ok, err, Metadata}
use web_davs_zk.Io.Paths.{join}

-- What a walk has collected.
pub record Found (A : Type 0) : Type 0 where
  pub files : List A
  pub dirs : List Text
  pub bytes : ℕ

abbrev pub nothing_found : {A : Type 0} → Found A
nothing_found = record { files = []; dirs = []; bytes = 0 }

-- The outcome of a walk on fuel; `none` means that directories were nested deeper than the fuel.
abbrev pub Walk : Type 0 → Type 0
Walk A = Option (Result (Found A))

abbrev then_entries : {A : Type 0} → Walk A → (Found A → Walk A) → Walk A
then_entries none k = none
then_entries (some (err e)) k = some (err e)
then_entries (some (ok acc)) k = k acc

-- The loop over the entries of a directory; an entry that cannot be read ends it.
unfoldable pub each_entry :
    {A : Type 0} → (Text → Found A → Walk A) → List (Result Text) → Found A → Walk A
each_entry visit [] acc = some (ok acc)
each_entry visit (err e ∷ entries) acc = some (err e)
each_entry visit (ok name ∷ entries) acc =
    then_entries (visit name acc) (λ acc'. each_entry visit entries acc')

abbrev pub read_entries :
    {A : Type 0} → Result (List (Result Text)) → (Text → Found A → Walk A) → Found A → Walk A
read_entries (err e) visit acc = some (err e)
read_entries (ok entries) visit acc = each_entry visit entries acc

-- `+=` on u64
abbrev add_u64 : ℕ → ℕ → ℕ
add_u64 a b = (a + b) % 2 ^ 64

module _ (os : Os) where
  abbrev pub add_file : Text → Text → Result Metadata → Found (Text × Text) → Walk (Text × Text)
  add_file src rel (err e) acc = some (err e)
  add_file src rel (ok md) acc = some (
      ok (record {
        files = acc.files ++ (src, rel) ∷ [];
        dirs = acc.dirs;
        bytes = add_u64 acc.bytes md.len;
      }))

  -- A file with its source and the path below the root of the walk.
  unfoldable pub walk_files : ℕ → Text → Text → os.State → Found (Text × Text) → Walk (Text × Text)
  unfolding each_entry
  walk_files zero src rel s acc = none
  walk_files (suc fuel) src rel s acc =
      let visit = λ (name : Text) (a : Found (Text × Text)).
        walk_files fuel (join src name) (join rel name) s a in
      let entered : Found (Text × Text) = record {
        files = acc.files;
        dirs = acc.dirs ++ rel ∷ [];
        bytes = acc.bytes;
      } in
      elim (os.is_dir src s) [
        | true ↦ read_entries (os.read_dir src s) visit entered
        | false ↦ add_file src rel (os.symlink_metadata src s) acc
      ]

  abbrev pub add_deleted : Text → Result Metadata → Found Text → Walk Text
  add_deleted src (err e) acc = some (err e)
  add_deleted src (ok md) acc = some (
      ok (record {
        files = acc.files ++ src ∷ [];
        dirs = acc.dirs;
        bytes = if not md.is_symlink then add_u64 acc.bytes md.len else acc.bytes;
      }))

  unfoldable pub walk_delete : ℕ → Text → os.State → Found Text → Walk Text
  unfolding each_entry
  walk_delete zero src s acc = none
  walk_delete (suc fuel) src s acc =
      let visit = λ (name : Text) (a : Found Text). walk_delete fuel (join src name) s a in
      let entered : Found Text = record {
        files = acc.files;
        dirs = acc.dirs ++ src ∷ [];
        bytes = acc.bytes;
      } in
      elim (os.is_dir src s) [
        | true ↦ read_entries (os.read_dir src s) visit entered
        | false ↦ add_deleted src (os.symlink_metadata src s) acc
      ]

  -- The loop of `copy_file` over what `read` returns, up to the first empty piece.
  unfoldable pub copy_loop : ℕ → List (Result (List ℕ)) → ℕ → os.State → Result ℕ × os.State
  copy_loop w [] total s = (ok total, s)
  copy_loop w (err e ∷ reads) total s = (err e, s)
  copy_loop w (ok [] ∷ reads) total s = (ok total, s)
  copy_loop w (ok (b ∷ bs) ∷ reads) total s =
      let (r, s') = os.write_all w (b ∷ bs) s in
      elim r [ err e ↦ (err e, s') | ok _ ↦ copy_loop w reads (add_u64 total (length (b ∷ bs))) s' ]

  -- From `set_permissions` on.
  abbrev finish_copy : ℕ → ℕ → Result ℕ × os.State → Result ℕ × os.State
  finish_copy w mode (err e, s) = (err e, s)
  finish_copy w mode (ok total, s) =
      let (r, s') = os.flush w (os.set_permissions w mode s) in
      elim r [ err e ↦ (err e, s') | ok _ ↦ (ok total, s') ]

  abbrev copy_opened : Text → List (Result (List ℕ)) → Result ℕ × os.State → Result ℕ × os.State
  copy_opened src reads (err e, s) = (err e, s)
  copy_opened src reads (ok w, s) = elim (os.permissions src s) [
    | err e ↦ (err e, s)
    | ok mode ↦ finish_copy w mode (copy_loop w reads 0 s)
  ]

  unfoldable pub copy_file : Text → Text → os.State → Result ℕ × os.State
  unfolding copy_loop
  copy_file src dst s =
      let (r, s') = os.open_read src s in
      elim r [ err e ↦ (err e, s') | ok reads ↦ copy_opened src reads (os.create dst s') ]
