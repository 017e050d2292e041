-- ===== src/Mover/Run/Ends.antt =====
-- How `run_job` of src/bin/file-mover.rs ends.
use web_davs_zk.Common.{
  ℕ, ◌^◌, ◌<◌, ◌≡◌, ◌≢◌, ◌↔◌, ◌⊎◌, inl, inr, refl, sym, ◌∙◌, Bool, true, false, Bool-cases, none,
  some, List, [], length, not, ◌&&◌, nat_eq, arith,
}
use web_davs_zk.Common.Text.{Text}
use web_davs_zk.Io.{Os, Result-cases, ok}
use web_davs_zk.Mover.Jobs.{Job, Op, is_move, running, done}
use web_davs_zk.Mover.Names.{Env}
use web_davs_zk.Mover.Walk.{Found, nothing_found, walk_files}
use web_davs_zk.Mover.Run.{
  Run, is_same_drive, finish_job, all_done, fast_path, slow_path, set_totals, after_walk, run_job,
}
use web_davs_zk.Mover.Run.Workers.{Agrees, workers, workers_lem, workers-Agrees}

module _ (os : Os) (env : Env) where
  Ended : Run os.State → Type 0
  Ended r = (r.job.status ≡ done) × (r.job.done_files ≡ r.job.total_files)

  finish_job_lem :
      (op : Op) (src : Text) (r : Run os.State)
      → r.job.done_files ≡ r.job.total_files
      → Ended (finish_job os env op src r)
  unfolding finish_job Ended
  finish_job_lem op src r h = ground arith

  abbrev pub at : os.State → Run os.State → Run os.State
  at s r = record r { fs = s }

  pub fast_path_cases :
      (op : Op) (same_drive : Bool) (src dst : Text) (r : Run os.State)
      → ((s : os.State) × (fast_path os env op same_drive src dst r
            ≡ (some (record r { fs = s; job = all_done os env r.job }), r)))
        ⊎ ((s : os.State) × (fast_path os env op same_drive src dst r ≡ (none, at s r)))
  fast_path_cases op same_drive src dst r =
      elim (Bool-cases (is_move op && (same_drive && not (os.exists dst r.fs)))) [
        | inr no_try ↦ inr (r.fs, rw no_try)
        | inl try ↦ elim (Result-cases (os.rename src dst r.fs)) [
          | inl (u, s, e) ↦ inl (s, ground arith)
          | inr (x, s, e) ↦ inr (s, ground arith)
        ]
      ]

  slow_path_lem :
      (schedule : List (Text × Text) → List (Text × Text)) (op : Op) (same_drive : Bool)
      (src dst : Text) (found : Found (Text × Text)) (r : Run os.State)
      → ((files : List (Text × Text)) → length (schedule files) ≡ length files)
      → length found.files < 2 ^ 64
      → r.job.done_files ≡ 0
      → r.job.total_files ≡ length found.files
      → Ended (
          slow_path os env schedule op same_drive src dst found
            (fast_path os env op same_drive src dst r))
  slow_path_lem schedule op same_drive src dst found r same bound z t =
      elim (fast_path_cases op same_drive src dst r) [
        | inl (s, e) ↦ rw e (unfold Ended in (refl, refl))
        | inr (s, e) ↦
            let (a, b) =
              workers_lem os env op same_drive dst found.dirs (schedule found.files) (at s r) z
                (rw (same found.files) bound) in
            rw e (finish_job_lem op src _ (a ∙ same found.files ∙ sym t ∙ sym b))
      ]

  no_fast_path :
      (op : Op) (same_drive : Bool) (src dst : Text) (r : Run os.State)
      → (is_move op && same_drive) ≡ false
      → fast_path os env op same_drive src dst r ≡ (none, r)
  no_fast_path op same_drive src dst r h = ground arith

  abbrev Kept : Op → Text → Run os.State → Run os.State → Type 0
  Kept op src after r =
      ((r.failed ≡ 0) ↔ (r.job.error ≡ none))
      × (((is_move op ≡ true) × (r.job.error ≡ none) × (r.fs ≡ (os.remove_dir_all src after.fs).1))
          ⊎ (((is_move op ≡ false) ⊎ (r.job.error ≢ none)) × (r.fs ≡ after.fs)))

  finish_job-Kept :
      (op : Op) (src : Text) (r : Run os.State)
      → Agrees r
      → Kept op src r (finish_job os env op src r)
  unfolding finish_job
  finish_job-Kept op src r agrees = ground (arith, agrees)

  -- Once the tree has been walked, the job ends as `done`, and shows all of the files that were
  -- found as done. It is fresh when it starts, and each of the files, of which there are fewer than
  -- 2^64, is drawn by one worker, in an order that `schedule` picks.
  pub run_job-done :
      (fuel : ℕ) (schedule : List (Text × Text) → List (Text × Text)) (op : Op) (src dst : Text)
      (s : os.State) (j : Job) (found : Found (Text × Text))
      → walk_files os fuel src [] s nothing_found ≡ some (ok found)
      → ((files : List (Text × Text)) → length (schedule files) ≡ length files)
      → length found.files < 2 ^ 64
      → j.done_files ≡ 0
      → (r : Run os.State) × (run_job os env fuel schedule op src dst s j ≡ some r)
        × (r.job.status ≡ done)
        × (r.job.done_files ≡ r.job.total_files)
  unfolding run_job after_walk Ended
  run_job-done fuel schedule op src dst s j found walked same bound z =
      let counted : Run os.State = record {
        fs = s;
        job = set_totals os env found (record j { status = running });
        failed = 0;
      } in
      let ended =
        slow_path_lem schedule op (is_same_drive os env src dst) src dst found counted same bound z
          refl in
      (
        slow_path os env schedule op (is_same_drive os env src dst) src dst found
            (fast_path os env op (is_same_drive os env src dst) src dst counted),
        rw walked,
        ended.0,
        ended.1,
      )

  -- A job that copies, or moves between drives, removes the tree of the source at the end if it is a
  -- move and shows no error; otherwise the file system stays as the workers leave it. The job shows
  -- an error exactly if a file has failed.
  pub run_job_keeps_source :
      (fuel : ℕ) (schedule : List (Text × Text) → List (Text × Text)) (op : Op) (src dst : Text)
      (s : os.State) (j : Job) (found : Found (Text × Text))
      → walk_files os fuel src [] s nothing_found ≡ some (ok found)
      → (is_move op && is_same_drive os env src dst) ≡ false
      → j.error ≡ none
      → let begun : Run os.State = record {
        fs = s;
        job = set_totals os env found (record j { status = running });
        failed = 0;
      } in
        let after =
          workers os env op
            (is_same_drive os env src dst)
            dst
            found.dirs
            (schedule found.files)
            begun in
        (r : Run os.State) × (run_job os env fuel schedule op src dst s j ≡ some r)
        × ((r.failed ≡ 0) ↔ (r.job.error ≡ none))
        × (((is_move op ≡ true)
              × (r.job.error ≡ none)
              × (r.fs ≡ (os.remove_dir_all src after.fs).1))
            ⊎ (((is_move op ≡ false) ⊎ (r.job.error ≢ none)) × (r.fs ≡ after.fs)))
  unfolding run_job after_walk
  run_job_keeps_source fuel schedule op src dst s j found walked slow fresh =
      let begun : Run os.State = record {
        fs = s;
        job = set_totals os env found (record j { status = running });
        failed = 0;
      } in
      let same_drive = is_same_drive os env src dst in
      let after = workers os env op same_drive dst found.dirs (schedule found.files) begun in
      let kept = finish_job-Kept op src after (
        workers-Agrees os env op same_drive dst found.dirs (schedule found.files) begun
          (λ _. fresh, λ _. refl)) in
      (
        finish_job os env op src after,
        rw walked (rw (no_fast_path op same_drive src dst begun slow)),
        kept.0,
        kept.1,
      )
