-- ===== src/Mover/Run.antt =====
-- `run_job` in src/bin/file-mover.rs: a move or a copy, in the background.
pub mod Workers
pub mod Ends
pub mod Returns
use web_davs_zk.Common.{
  ℕ, zero, suc, ◌+◌, ◌%◌, ◌^◌, Bool, true, false, Option, none, some, List, [], ◌∷◌, ◌++◌, ◌&&◌,
  ◌||◌, ◌==◌, nat_eq, list_eq, length, not, if◌then◌else◌,
}
use mathlib.Core.Option
use web_davs_zk.Common.Text.{Text, text}
use web_davs_zk.Io.{Os, IoError, Result, ok, err, is_ok, is_crosses_devices}
use web_davs_zk.Mover.Jobs.{Job, Op, is_move, Status, running, done, error, note_current}
use web_davs_zk.Mover.Names.{Env, root_a, root_b, path_drive, target_path}
use web_davs_zk.Mover.Walk.{Found, Walk, nothing_found, walk_files, copy_file}

-- `path_drive(src) == path_drive(dst)`
abbrev pub same_option : Option Text → Option Text → Bool
same_option none none = true
same_option (some a) (some b) = a == b
same_option _ _ = false

-- A running job: the file system, and the job's entry in the map, which stays there from its
-- registration on and which no other thread updates. `failed` counts the files that failed.
pub record Run (State : Type 0) : Type 0 where
  pub fs : State
  pub job : Job
  pub failed : ℕ

abbrev pub update : {State : Type 0} → (Job → Job) → Run State → Run State
update f r = record r { job = f r.job }

abbrev pub fail_job : Text → Job → Job
fail_job message j = record j { status = error; error = some message }

abbrev add_u64 : ℕ → ℕ → ℕ
add_u64 a b = (a + b) % 2 ^ 64

module _ (os : Os) (env : Env) where
  unfoldable pub is_same_drive : Text → Text → Bool
  is_same_drive src dst =
      let mounts = root_a env ∷ root_b env ∷ [] in
      same_option (path_drive mounts src) (path_drive mounts dst)

  abbrev pub Transfer : Type 0
  Transfer = Bool × Option Text × os.State

  abbrev remove_after : Text → os.State → Transfer
  remove_after sf s = let (r, s') = os.remove_file sf s in (is_ok r, none, s')

  -- Copy, and remove the source if `consume` says so.
  abbrev copy_over : Bool → Text → Text → os.State → Transfer
  copy_over consume sf df s =
      let (r, s') = copy_file os sf df s in
      elim r [
        | err e ↦ (false, some e.message, s')
        | ok _ ↦ if consume then remove_after sf s' else (true, none, s')
      ]

  abbrev is_eio : Option ℕ → Bool
  is_eio none = false
  is_eio (some code) = code == 5

  -- Whether the file landed, with the error if there is one.
  unfoldable pub transfer : Op → Bool → Text → Text → os.State → Transfer
  transfer op same_drive sf df s =
      let (r, s') = os.rename sf df s in
      let renamed : Transfer = elim r [
        | ok _ ↦ (true, none, s')
        | err e ↦
            if is_crosses_devices e || is_eio e.raw_os_error
            then copy_over true sf df s'
            else (false, some e.message, s')
      ] in
      if is_move op && same_drive then renamed else copy_over (is_move op) sf df s

  abbrev pub size_of : Text → os.State → ℕ
  size_of sf s = elim (os.symlink_metadata sf s) [ err _ ↦ 0 | ok md ↦ md.len ]

  abbrev note_error : Text → Job → Job
  note_error message j = elim j.error [ none ↦ record j { error = some message } | some _ ↦ j ]

  abbrev failure : Text → Text → Option Text → Text
  failure sf df e = sf ++ (text " -> " ++ (df ++ (text ": " ++ Option.get_or e [])))

  -- What is recorded once a file is through.
  abbrev pub record_transfer : Text → Text → ℕ → Transfer → Run os.State → Run os.State
  record_transfer sf df size (true, e, s) r = record {
    fs = s;
    job = record r.job {
      done_files = add_u64 r.job.done_files 1;
      done_bytes = add_u64 r.job.done_bytes size;
    };
    failed = r.failed;
  }
  record_transfer sf df size (false, e, s) r = record {
    fs = s;
    job = record (note_error (failure sf df e) r.job) { done_files = add_u64 r.job.done_files 1 };
    failed = r.failed + 1;
  }

  -- The body of a worker's loop, for the file that it has drawn.
  unfoldable pub process_file : Op → Bool → Text → Text × Text → Run os.State → Run os.State
  process_file op same_drive dst (sf, rel) r =
      let df = target_path dst rel in
      record_transfer sf df (size_of sf r.fs) (transfer op same_drive sf df r.fs)
        (update (note_current sf) r)

  unfoldable pub process_files : Op → Bool → Text → List (Text × Text) → Run os.State → Run os.State
  process_files op same_drive dst [] r = r
  process_files op same_drive dst (f ∷ files) r =
      process_files op same_drive dst files (process_file op same_drive dst f r)

  abbrev pub dir_made : Text → Result (Unit {0}) × os.State → Run os.State → Run os.State
  dir_made df (err _, s) r = record r { fs = s }
  dir_made df (ok _, s) r = record r {
    fs = s;
    job = note_current df (record r.job { done_dirs = add_u64 r.job.done_dirs 1 });
  }

  unfoldable pub make_dirs : Text → List Text → Run os.State → Run os.State
  make_dirs dst [] r = r
  make_dirs dst (rel ∷ dirs) r =
      let df = target_path dst rel in make_dirs dst dirs (dir_made df (os.create_dir_all df r.fs) r)

  -- After the workers: a move without failures removes what is left of the source.
  unfoldable pub finish_job : Op → Text → Run os.State → Run os.State
  finish_job op src r =
      let cleaned = record r { fs = (os.remove_dir_all src r.fs).1 } in
      update (λ j. record j { status = done }) (if is_move op && r.failed == 0 then cleaned else r)

  abbrev pub all_done : Job → Job
  all_done j = record j {
    done_files = j.total_files;
    done_dirs = j.total_dirs;
    done_bytes = j.total_bytes;
    status = done;
  }

  -- The whole tree by one rename, if that is tried and succeeds.
  abbrev pub fast_path :
      Op → Bool → Text → Text → Run os.State → Option (Run os.State) × Run os.State
  fast_path op same_drive src dst r =
      let (answer, s) = os.rename src dst r.fs in
      let tried : Option (Run os.State) × Run os.State = elim answer [
        | ok _ ↦ (some (record r { fs = s; job = all_done r.job }), r)
        | err _ ↦ (none, record r { fs = s })
      ] in
      if is_move op && (same_drive && not (os.exists dst r.fs)) then tried else (none, r)

  abbrev pub slow_path :
      (List (Text × Text) → List (Text × Text))
      → Op
      → Bool
      → Text
      → Text
      → Found (Text × Text)
      → Option (Run os.State) × Run os.State
      → Run os.State
  slow_path schedule op same_drive src dst found (some r, _) = r
  slow_path schedule op same_drive src dst found (none, r) =
      finish_job op src
        (process_files op same_drive dst (schedule found.files) (make_dirs dst found.dirs r))

  abbrev pub set_totals : Found (Text × Text) → Job → Job
  set_totals found j = record j {
    total_files = length found.files;
    total_dirs = length found.dirs;
    total_bytes = found.bytes;
  }

  unfoldable pub after_walk :
      (List (Text × Text) → List (Text × Text))
      → Op
      → Text
      → Text
      → Walk (Text × Text)
      → Run os.State
      → Option (Run os.State)
  after_walk schedule op src dst none r = none
  after_walk schedule op src dst (some (err e)) r = some (update (fail_job e.message) r)
  after_walk schedule op src dst (some (ok found)) r =
      let same_drive = is_same_drive src dst in
      let counted = update (set_totals found) r in
      some
        (slow_path schedule op same_drive src dst found (fast_path op same_drive src dst counted))

  -- `schedule` is the order in which the worker threads get through the files. `none` means that
  -- the tree is deeper than the fuel.
  unfoldable pub run_job :
      ℕ
      → (List (Text × Text) → List (Text × Text))
      → Op
      → Text
      → Text
      → os.State
      → Job
      → Option (Run os.State)
  unfolding after_walk
  run_job fuel schedule op src dst s j =
      let begun : Run os.State = record {
        fs = s;
        job = record j { status = running };
        failed = 0;
      } in
      after_walk schedule op src dst (walk_files os fuel src [] s nothing_found) begun
