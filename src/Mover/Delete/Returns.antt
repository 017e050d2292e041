-- ===== src/Mover/Delete/Returns.antt =====
-- A deletion of src/bin/file-mover.rs does not stay queued or running.
use web_davs_zk.Common.{
  ℕ, ◌≡◌, refl, inl, inr, Bool-cases, false, some, List, reverse, ◌||◌, nat_eq, arith,
}
use web_davs_zk.Common.Text.{Text}
use web_davs_zk.Io.{Os, Result, ok, err}
use web_davs_zk.Mover.Jobs.{Job, is_active, running}
use web_davs_zk.Mover.Walk.{Found, nothing_found}
use web_davs_zk.Mover.Walk.Links.{Within, walk_delete-returns}
use web_davs_zk.Mover.Run.{Run, update}
use web_davs_zk.Mover.Delete.{
  single, end_deletion, remove_files, remove_dirs, set_totals, after_walk, run_delete_job,
}

module _ (os : Os) where
  abbrev Ends : Run os.State → Type 0
  Ends r = is_active r.job.status ≡ false

  end_deletion-Ends : (r : Run os.State) → Ends (end_deletion os r)
  end_deletion-Ends r = ground arith

  single-Ends : (a : Result (Unit {0}) × os.State) (r : Run os.State) → Ends (single os a r)
  single-Ends (ok u, s) r = refl
  single-Ends (err e, s) r = refl

  after_walk-Ends :
      (schedule : List Text → List Text) (answer : Result (Found Text)) (begun : Run os.State)
      → (r : Run os.State) × (after_walk os schedule (some answer) begun ≡ some r) × Ends r
  after_walk-Ends schedule (err e) begun = (_, refl, refl)
  after_walk-Ends schedule (ok found) begun =
      let emptied = remove_files os (schedule found.files) (update (set_totals os found) begun) in
      let last = remove_dirs os (reverse found.dirs) emptied in
      (end_deletion os last, refl, end_deletion-Ends last)

  -- A deletion of a tree that is no deeper than the fuel, the links in it followed, comes to an end,
  -- whatever fails on the way: it is not queued or running any more.
  pub run_delete_job-ends :
      (fuel : ℕ) (schedule : List Text → List Text) (src : Text) (s : os.State) (j : Job)
      → Within os s fuel src
      → (r : Run os.State) × (run_delete_job os fuel schedule src s j ≡ some r)
        × (is_active r.job.status ≡ false)
  unfolding run_delete_job
  run_delete_job-ends fuel schedule src s j shallow =
      let begun : Run os.State = record {
        fs = s;
        job = record j { status = running };
        failed = 0;
      } in
      let (answer, walked) = walk_delete-returns os s fuel src nothing_found shallow in
      elim (Bool-cases (os.is_file src s || os.is_symlink src s)) [
        | inl file ↦
            let removed = os.remove_file src s in
            (single os removed begun, rw file refl, single-Ends removed begun)
        | inr tree ↦ rw tree (rw walked (after_walk-Ends schedule answer begun))
      ]
