-- ===== src/Mover/Run/Returns.antt =====
-- A job of src/bin/file-mover.rs does not stay queued or running.
use web_davs_zk.Common.{ℕ, ◌≡◌, refl, ap, inl, inr, Bool, false, some, List, nat_eq, arith}
use web_davs_zk.Common.Text.{Text}
use web_davs_zk.Io.{Os, Result, ok, err}
use web_davs_zk.Mover.Jobs.{Job, Op, is_active, done}
use web_davs_zk.Mover.Names.{Env}
use web_davs_zk.Mover.Walk.{Found, nothing_found}
use web_davs_zk.Mover.Walk.Links.{Within, walk_files-returns}
use web_davs_zk.Mover.Run.{
  Run, is_same_drive, finish_job, fast_path, slow_path, set_totals, update, after_walk, run_job,
}
use web_davs_zk.Mover.Run.Ends.{fast_path_cases}

module _ (os : Os) (env : Env) where
  finish_job-done :
      (op : Op) (src : Text) (r : Run os.State) → (finish_job os env op src r).job.status ≡ done
  unfolding finish_job
  finish_job-done op src r = ground arith

  slow_path-done :
      (schedule : List (Text × Text) → List (Text × Text)) (op : Op) (same_drive : Bool)
      (src dst : Text) (found : Found (Text × Text)) (r : Run os.State)
      → (slow_path os env schedule op same_drive src dst found
          (fast_path os env op same_drive src dst r)).job.status
        ≡ done
  slow_path-done schedule op same_drive src dst found r =
      elim (fast_path_cases os env op same_drive src dst r) [
        | inl (s, e) ↦ rw e refl
        | inr (s, e) ↦ rw e (finish_job-done op src _)
      ]

  after_walk-ends :
      (schedule : List (Text × Text) → List (Text × Text)) (op : Op) (src dst : Text)
      (answer : Result (Found (Text × Text))) (begun : Run os.State)
      → (r : Run os.State) × (after_walk os env schedule op src dst (some answer) begun ≡ some r)
        × (is_active r.job.status ≡ false)
  unfolding after_walk
  after_walk-ends schedule op src dst (err e) begun = (_, refl, refl)
  after_walk-ends schedule op src dst (ok found) begun =
      let ended =
        slow_path-done schedule op (is_same_drive os env src dst) src dst found
          (update (set_totals os env found) begun) in
      (_, refl, ap is_active ended)

  -- A job on a tree that is no deeper than the fuel comes to an end, whatever fails on the way: it is
  -- not queued or running any more.
  pub run_job-ends :
      (fuel : ℕ) (schedule : List (Text × Text) → List (Text × Text)) (op : Op) (src dst : Text)
      (s : os.State) (j : Job)
      → Within os s fuel src
      → (r : Run os.State) × (run_job os env fuel schedule op src dst s j ≡ some r)
        × (is_active r.job.status ≡ false)
  unfolding run_job
  run_job-ends fuel schedule op src dst s j shallow =
      let (answer, walked) = walk_files-returns os s fuel src nothing_found shallow in
      rw walked (after_walk-ends schedule op src dst answer _)
