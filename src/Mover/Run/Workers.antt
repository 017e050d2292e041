-- ===== src/Mover/Run/Workers.antt =====
-- What the workers of `run_job` in src/bin/file-mover.rs count.
use web_davs_zk.Common.{
  ℕ, ◌+◌, ◌%◌, ◌^◌, ◌<◌, ◌≡◌, ◌↔◌, refl, ◌∙◌, Bool, true, false, none, List, [], ◌∷◌, length,
  nat_eq, arith,
}
use web_davs_zk.Common.Text.{Text}
use web_davs_zk.Io.{Os, Result, ok, err}
use web_davs_zk.Mover.Jobs.{Op, note_current}
use web_davs_zk.Mover.Names.{Env, target_path}
use web_davs_zk.Mover.Run.{
  Run, update, Transfer, transfer, size_of, record_transfer, process_file, process_files, dir_made,
  make_dirs,
}

module _ {State : Type 0} where
  -- The job shows an error exactly if a file has failed.
  abbrev pub Agrees : Run State → Type 0
  Agrees r = (r.failed ≡ 0) ↔ (r.job.error ≡ none)

  abbrev Grows : ℕ → Run State → Run State → Type 0
  Grows n r r' =
      (r'.job.done_files ≡ (r.job.done_files + n) % 2 ^ 64)
      × (r'.job.total_files ≡ r.job.total_files)
      × (Agrees r → Agrees r')

module _ (os : Os) (env : Env) where
  record_transfer_lem :
      (sf df : Text) (size : ℕ) (t : Transfer os env) (r : Run os.State)
      → Grows 1 r (record_transfer os env sf df size t r)
  record_transfer_lem sf df size (true, e, s) r = (refl, refl, λ a. a)
  record_transfer_lem sf df size (false, e, s) r = (ground arith, ground arith, λ a. ground arith)

  process_file_lem :
      (op : Op) (same_drive : Bool) (dst : Text) (f : Text × Text) (r : Run os.State)
      → Grows 1 r (process_file os env op same_drive dst f r)
  unfolding process_file note_current
  process_file_lem op same_drive dst (sf, rel) r =
      record_transfer_lem sf (target_path dst rel) (size_of os env sf r.fs)
        (transfer os env op same_drive sf (target_path dst rel) r.fs) (update (note_current sf) r)

  process_files_lem :
      (op : Op) (same_drive : Bool) (dst : Text) (files : List (Text × Text)) (r : Run os.State)
      → r.job.done_files < 2 ^ 64
      → Grows (length files) r (process_files os env op same_drive dst files r)
  unfolding process_files
  process_files_lem op same_drive dst [] r h = (omega arith, refl, λ a. a)
  process_files_lem op same_drive dst (f ∷ files) r h =
      let one = process_file_lem op same_drive dst f r in
      let more =
        process_files_lem op same_drive dst files (process_file os env op same_drive dst f r)
          (omega arith) in
      (omega arith, more.1 ∙ one.1, λ a. more.2 (one.2 a))

  abbrev Same : Run os.State → Run os.State → Type 0
  Same r r' =
      (r'.job.done_files ≡ r.job.done_files)
      × (r'.job.total_files ≡ r.job.total_files)
      × (r'.failed ≡ r.failed)
      × (r'.job.error ≡ r.job.error)

  dir_made_lem :
      (df : Text) (a : Result (Unit {0}) × os.State) (r : Run os.State)
      → Same r (dir_made os env df a r)
  unfolding note_current
  dir_made_lem df (err e, s) r = (refl, refl, refl, refl)
  dir_made_lem df (ok u, s) r = (refl, refl, refl, refl)

  make_dirs_lem :
      (dst : Text) (dirs : List Text) (r : Run os.State) → Same r (make_dirs os env dst dirs r)
  unfolding make_dirs
  make_dirs_lem dst [] r = (refl, refl, refl, refl)
  make_dirs_lem dst (rel ∷ dirs) r =
      let answer = os.create_dir_all (target_path dst rel) r.fs in
      let (a, b, c, d) = dir_made_lem (target_path dst rel) answer r in
      let (a', b', c', d') =
        make_dirs_lem dst dirs (dir_made os env (target_path dst rel) answer r) in
      (a' ∙ a, b' ∙ b, c' ∙ c, d' ∙ d)

  -- The job as it stands when the last worker has ended.
  abbrev pub workers :
      Op → Bool → Text → List Text → List (Text × Text) → Run os.State → Run os.State
  workers op same_drive dst dirs files r =
      process_files os env op same_drive dst files (make_dirs os env dst dirs r)

  pub workers_lem :
      (op : Op) (same_drive : Bool) (dst : Text) (dirs : List Text) (files : List (Text × Text))
      (r : Run os.State)
      → r.job.done_files ≡ 0
      → length files < 2 ^ 64
      → ((workers op same_drive dst dirs files r).job.done_files ≡ length files)
        × ((workers op same_drive dst dirs files r).job.total_files ≡ r.job.total_files)
  workers_lem op same_drive dst dirs files r z h =
      let (a, b, c, d) = make_dirs_lem dst dirs r in
      let (a', b', _) =
        process_files_lem op same_drive dst files (make_dirs os env dst dirs r) (omega arith) in
      (omega arith, b' ∙ b)

  process_files-Agrees :
      (op : Op) (same_drive : Bool) (dst : Text) (files : List (Text × Text)) (r : Run os.State)
      → Agrees r
      → Agrees (process_files os env op same_drive dst files r)
  unfolding process_files
  process_files-Agrees op same_drive dst [] r a = a
  process_files-Agrees op same_drive dst (f ∷ files) r a =
      process_files-Agrees op same_drive dst files (process_file os env op same_drive dst f r)
        ((process_file_lem op same_drive dst f r).2 a)

  pub workers-Agrees :
      (op : Op) (same_drive : Bool) (dst : Text) (dirs : List Text) (files : List (Text × Text))
      (r : Run os.State)
      → Agrees r
      → Agrees (workers op same_drive dst dirs files r)
  workers-Agrees op same_drive dst dirs files r agrees =
      let (a, b, c, d) = make_dirs_lem dst dirs r in
      process_files-Agrees op same_drive dst files (make_dirs os env dst dirs r)
        (ground (arith, agrees))
