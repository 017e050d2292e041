-- ===== src/Mover/Delete/Outcome.antt =====
-- What the status of a deletion in src/bin/file-mover.rs tells.
use mathlib.Core.List.{reverse_aux, Perm}
use web_davs_zk.Common.Perms.{length-Perm}
use web_davs_zk.Common.{
  ℕ, ◌+◌, ◌^◌, ◌≤◌, ◌<◌, ◌≡◌, ◌≢◌, ◌⊎◌, refl, ap, sym, ◌∙◌, inl, inr, Bool-cases, false, some, List,
  [], ◌∷◌, ◌||◌, ◌==◌, nat_eq, length, reverse, arith,
}
use web_davs_zk.Common.Text.{Text}
use web_davs_zk.Io.{Os, Result, ok, err}
use web_davs_zk.Mover.Jobs.{Job, running, done, error, note_current}
use web_davs_zk.Mover.Walk.{Found, nothing_found, walk_delete}
use web_davs_zk.Mover.Run.{Run, update}
use web_davs_zk.Mover.Delete.{
  file_removed, remove_files, dir_removed, remove_dirs, set_totals, end_deletion, run_delete_job,
}

length-reverse_aux : (xs ys : List Text) → length (reverse_aux xs ys) ≡ length xs + length ys
length-reverse_aux [] ys = omega arith
length-reverse_aux (x ∷ xs) ys = omega (arith, length-reverse_aux xs (x ∷ ys))

length-reverse : (xs : List Text) → length (reverse xs) ≡ length xs
length-reverse xs = omega (arith, length-reverse_aux xs [])

module _ (os : Os) where
  abbrev Totals : Run os.State → Run os.State → Type 0
  Totals r r' = (r'.job.total_files ≡ r.job.total_files) × (r'.job.total_dirs ≡ r.job.total_dirs)

  -- The calls for all the paths, one after the other, have led from one state to the other, and each
  -- has succeeded.
  abbrev pub AllSucceed :
      (Text → os.State → Result (Unit {0}) × os.State) → List Text → os.State → os.State → Type 0
  AllSucceed call [] s t = t ≡ s
  AllSucceed call (path ∷ paths) s t =
      (s' : os.State) × (call path s ≡ (ok tt, s')) × AllSucceed call paths s' t

  -- Failures are only added, and if none was added, then all files are removed and counted.
  abbrev Files : List Text → Run os.State → Run os.State → Type 0
  Files files r r' =
      Totals r r'
      × (r'.job.done_dirs ≡ r.job.done_dirs)
      × (r.failed ≤ r'.failed)
      × ((r'.failed ≡ r.failed)
          → (r'.job.done_files ≡ r.job.done_files + length files)
            × AllSucceed os.remove_file files r.fs r'.fs)

  abbrev Dirs : List Text → Run os.State → Run os.State → Type 0
  Dirs dirs r r' =
      Totals r r'
      × (r'.job.done_files ≡ r.job.done_files)
      × (r.failed ≤ r'.failed)
      × ((r'.failed ≡ r.failed)
          → (r'.job.done_dirs ≡ r.job.done_dirs + length dirs)
            × AllSucceed os.remove_dir dirs r.fs r'.fs)

  file_removed-Files :
      (f : Text) (s : os.State) (a : Result (Unit {0}) × os.State) (r : Run os.State)
      → os.remove_file f s ≡ a
      → r.fs ≡ s
      → r.job.done_files + 1 < 2 ^ 64
      → Files (f ∷ []) r (file_removed os f a r)
        × ((file_removed os f a r).job.done_files ≤ r.job.done_files + 1)
  file_removed-Files f s (ok u, t) r e at_s h =
      (((refl, refl), refl, omega arith, λ _. (omega arith, (t, rw at_s e, refl))), omega arith)
  file_removed-Files f s (err x, t) r e at_s h = ground arith

  remove_files-Files :
      (files : List Text) (r : Run os.State)
      → r.job.done_files + length files < 2 ^ 64
      → Files files r (remove_files os files r)
  unfolding remove_files note_current
  remove_files-Files [] r h = ground arith
  remove_files-Files (f ∷ files) r h =
      let r' = file_removed os f (os.remove_file f r.fs) (update (note_current f) r) in
      let one =
        file_removed-Files f r.fs (os.remove_file f r.fs) (update (note_current f) r) refl refl
          (omega arith) in
      let more = remove_files-Files files r' (omega arith) in
      (
        (more.0.0 ∙ one.0.0.0, more.0.1 ∙ one.0.0.1),
        more.1 ∙ one.0.1,
        omega arith,
        λ e.
            let (rest, later) = more.3 (omega arith) in
            let (first, (t, called, same)) = one.0.3 (omega arith) in
            (omega (arith, rest, first), (r'.fs, called ∙ ap (λ u. (ok tt, u)) (sym same), later)),
      )

  dir_removed-Dirs :
      (d : Text) (s : os.State) (a : Result (Unit {0}) × os.State) (r : Run os.State)
      → os.remove_dir d s ≡ a
      → r.fs ≡ s
      → r.job.done_dirs + 1 < 2 ^ 64
      → Dirs (d ∷ []) r (dir_removed os a r)
        × ((dir_removed os a r).job.done_dirs ≤ r.job.done_dirs + 1)
  dir_removed-Dirs d s (ok u, t) r e at_s h =
      (((refl, refl), refl, omega arith, λ _. (omega arith, (t, rw at_s e, refl))), omega arith)
  dir_removed-Dirs d s (err x, t) r e at_s h = ground arith

  remove_dirs-Dirs :
      (dirs : List Text) (r : Run os.State)
      → r.job.done_dirs + length dirs < 2 ^ 64
      → Dirs dirs r (remove_dirs os dirs r)
  unfolding remove_dirs note_current
  remove_dirs-Dirs [] r h = ground arith
  remove_dirs-Dirs (d ∷ dirs) r h =
      let r' = dir_removed os (os.remove_dir d r.fs) (update (note_current d) r) in
      let one =
        dir_removed-Dirs d r.fs (os.remove_dir d r.fs) (update (note_current d) r) refl refl
          (omega arith) in
      let more = remove_dirs-Dirs dirs r' (omega arith) in
      (
        (more.0.0 ∙ one.0.0.0, more.0.1 ∙ one.0.0.1),
        more.1 ∙ one.0.1,
        omega arith,
        λ e.
            let (rest, later) = more.3 (omega arith) in
            let (first, (t, called, same)) = one.0.3 (omega arith) in
            (omega (arith, rest, first), (r'.fs, called ∙ ap (λ u. (ok tt, u)) (sym same), later)),
      )

  -- The deletion of a tree that has been walked ends as `done` only if every call that removes one
  -- of its files has succeeded, in the order of the workers, and then every call that removes one of
  -- its folders, from the last to the first; these calls are all that has changed the file system,
  -- nothing has failed, and the counts are the totals. Otherwise it ends as `error`. The job is
  -- fresh, the path names no file and no link, each file is drawn by one worker, and the files and
  -- folders are fewer than 2^64.
  pub run_delete_job-done :
      (fuel : ℕ) (schedule : List Text → List Text) (src : Text) (s : os.State) (j : Job)
      (found : Found Text)
      → (os.is_file src s || os.is_symlink src s) ≡ false
      → walk_delete os fuel src s nothing_found ≡ some (ok found)
      → Perm (schedule found.files) found.files
      → length found.files < 2 ^ 64
      → length found.dirs < 2 ^ 64
      → j.done_files ≡ 0
      → j.done_dirs ≡ 0
      → (r : Run os.State) × (run_delete_job os fuel schedule src s j ≡ some r)
        × (((r.job.status ≡ done)
              × (r.failed ≡ 0)
              × (r.job.total_files ≡ length found.files)
              × (r.job.done_files ≡ length found.files)
              × (r.job.total_dirs ≡ length found.dirs)
              × (r.job.done_dirs ≡ length found.dirs)
              × ((emptied : os.State) × AllSucceed os.remove_file (schedule found.files) s emptied
                  × AllSucceed os.remove_dir (reverse found.dirs) emptied r.fs))
            ⊎ ((r.job.status ≡ error) × (r.failed ≢ 0)))
  unfolding run_delete_job
  run_delete_job-done fuel schedule src s j found tree walked drawn bf bd zf zd =
      let begun : Run os.State = record {
        fs = s;
        job = set_totals os found (record j { status = running });
        failed = 0;
      } in
      let same = length-Perm drawn in
      let files = remove_files-Files (schedule found.files) begun (omega (arith, same)) in
      let emptied = remove_files os (schedule found.files) begun in
      let dirs =
        remove_dirs-Dirs (reverse found.dirs) emptied
          (omega (arith, files.1, length-reverse found.dirs)) in
      let last = remove_dirs os (reverse found.dirs) emptied in
      (
        end_deletion os last,
        rw tree (rw walked),
        elim (Bool-cases (last.failed == 0)) [
          | inl clean ↦
              let zero : last.failed ≡ 0 = (nat_eq.beq_iff last.failed 0).0 clean in
              let (e, unlinked) = files.3 (omega arith) in
              let (e', removed) = dirs.3 (omega arith) in
              inl (
                rw clean refl,
                zero,
                dirs.0.0 ∙ files.0.0,
                omega (arith, same),
                dirs.0.1 ∙ files.0.1,
                omega (arith, length-reverse found.dirs),
                (emptied.fs, unlinked, removed),
              )
          | inr broken ↦ inr (rw broken refl, λ zero. ground arith)
        ],
      )
