-- ===== src/Mover/Delete.antt =====
-- `run_delete_job` in src/bin/file-mover.rs: a deletion, in the background.
pub mod Outcome
pub mod Returns
use web_davs_zk.Common.{
  ℕ, ◌+◌, ◌%◌, ◌^◌, Bool, true, false, Option, none, some, List, [], ◌∷◌, ◌++◌, ◌||◌, ◌==◌, nat_eq,
  length, reverse, if◌then◌else◌,
}
use web_davs_zk.Common.Text.{Text, text}
use web_davs_zk.Io.{Os, IoError, Result, ok, err}
use web_davs_zk.Mover.Jobs.{Job, running, done, error, note_current}
use web_davs_zk.Mover.Walk.{Found, Walk, nothing_found, walk_delete}
use web_davs_zk.Mover.Run.{Run, update, fail_job}

abbrev add_u64 : ℕ → ℕ → ℕ
add_u64 a b = (a + b) % 2 ^ 64

module _ (os : Os) where
  -- The branch for a file or a link.
  abbrev pub single : Result (Unit {0}) × os.State → Run os.State → Run os.State
  single (ok _, s) r = record r {
    fs = s;
    job = record r.job { done_files = add_u64 r.job.done_files 1; total_files = 1; status = done };
  }
  single (err e, s) r = record r { fs = s; job = fail_job e.message r.job }

  abbrev note_failure : Text → IoError → Job → Job
  note_failure f e j = elim j.error [
    | none ↦ record j { error = some (f ++ (text ": " ++ e.message)) }
    | some _ ↦ j
  ]

  abbrev pub file_removed : Text → Result (Unit {0}) × os.State → Run os.State → Run os.State
  file_removed f (ok _, s) r = record r {
    fs = s;
    job = record r.job { done_files = add_u64 r.job.done_files 1 };
  }
  file_removed f (err e, s) r = record {
    fs = s;
    job = note_failure f e r.job;
    failed = r.failed + 1;
  }

  -- The workers, in the order in which they get through the files.
  unfoldable pub remove_files : List Text → Run os.State → Run os.State
  remove_files [] r = r
  remove_files (f ∷ files) r =
      remove_files files (file_removed f (os.remove_file f r.fs) (update (note_current f) r))

  abbrev pub dir_removed : Result (Unit {0}) × os.State → Run os.State → Run os.State
  dir_removed (ok _, s) r = record r {
    fs = s;
    job = record r.job { done_dirs = add_u64 r.job.done_dirs 1 };
  }
  dir_removed (err e, s) r = record r { fs = s; failed = r.failed + 1 }

  unfoldable pub remove_dirs : List Text → Run os.State → Run os.State
  remove_dirs [] r = r
  remove_dirs (d ∷ dirs) r =
      remove_dirs dirs (dir_removed (os.remove_dir d r.fs) (update (note_current d) r))

  abbrev pub set_totals : Found Text → Job → Job
  set_totals found j = record j {
    total_files = length found.files;
    total_dirs = length found.dirs;
    total_bytes = found.bytes;
  }

  abbrev pub end_deletion : Run os.State → Run os.State
  end_deletion r = update (λ j. record j { status = if r.failed == 0 then done else error }) r

  abbrev pub after_walk : (List Text → List Text) → Walk Text → Run os.State → Option (Run os.State)
  after_walk schedule none r = none
  after_walk schedule (some (err e)) r = some (update (fail_job e.message) r)
  after_walk schedule (some (ok found)) r = some (
      end_deletion (
        remove_dirs (reverse found.dirs)
          (remove_files (schedule found.files) (update (set_totals found) r))))

  -- `none` means that the tree is deeper than the fuel.
  unfoldable pub run_delete_job :
      ℕ → (List Text → List Text) → Text → os.State → Job → Option (Run os.State)
  run_delete_job fuel schedule src s j =
      let begun : Run os.State = record {
        fs = s;
        job = record j { status = running };
        failed = 0;
      } in
      let whole = after_walk schedule (walk_delete os fuel src s nothing_found) begun in
      if os.is_file src s || os.is_symlink src s
      then some (single (os.remove_file src s) begun)
      else whole
