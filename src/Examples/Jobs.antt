-- ===== src/Examples/Jobs.antt =====
-- The theorems on walks and jobs at concrete inputs.
use web_davs_zk.Common.{
  ℕ, suc, true, false, none, some, List, [], ◌∷◌, map, ◌≡◌, ◌≢◌, ◌↔◌, ◌⊎◌, refl, arith, list_beq,
  ◌==◌, nat_eq, list_eq, length, ◌&&◌,
}
use mathlib.Core.List.Perm
use web_davs_zk.Common.Text.{Text, text}
use web_davs_zk.Io.{Os, ok}
use web_davs_zk.Io.Paths.{join, parts_of, strip_parts, is_rooted}
use web_davs_zk.Io.Paths
use web_davs_zk.Mover.Jobs.{
  Job, Jobs, register, find_duplicate, is_duplicate, insert, is_active, copy_op, move_op, running,
  done, error, new_job,
}
use web_davs_zk.Mover.Jobs.Unique.{Registry, Step, Reach, NoConflict, Reach-NoConflict}
use web_davs_zk.Mover.Names.{Env, root_a, root_b, candidate, free_dst, path_drive}
use web_davs_zk.Mover.Names.Free.{AllExist, free_dst_lem}
use web_davs_zk.Mover.Walk.{Found, nothing_found, each_entry, walk_files, walk_delete}
use web_davs_zk.Mover.Walk.Links.{Within, AllWithin, PlainFiles, walk_delete_through_link}
use web_davs_zk.Mover.Run.{Run, is_same_drive, set_totals, run_job}
use web_davs_zk.Mover.Run.Workers.{workers}
use web_davs_zk.Mover.Run.Ends.{run_job-done, run_job_keeps_source}
use web_davs_zk.Mover.Run.Returns.{run_job-ends}
use web_davs_zk.Mover.Delete.{run_delete_job}
use web_davs_zk.Mover.Delete.Outcome.{AllSucceed, run_delete_job-done}
use web_davs_zk.Mover.Delete.Returns.{run_delete_job-ends}
use web_davs_zk.Examples.{disk, folder, inside}

abbrev env : Env
env = record { home = some (text "/h"); url_a = none; url_b = none }

abbrev registry : Registry
registry = record { next_id = 1; jobs = [] }

-- Three requests take their ids, and register in another order; the last asks for what a job in the
-- map does already.
abbrev two_jobs : Jobs
two_jobs = (2, new_job copy_op inside (text "/f")) ∷ (1, new_job copy_op inside (text "/e")) ∷ []

ids_taken : Reach (record { next_id = 4; jobs = [] })
ids_taken =
    Reach.later (Reach.later (Reach.later Reach.start Step.take_id) Step.take_id) Step.take_id

three_requests : Reach (record { next_id = 4; jobs = two_jobs })
unfolding register find_duplicate is_duplicate insert list_beq
three_requests =
    Reach.later
      (Reach.later (Reach.later ids_taken (Step.request 2 copy_op inside (text "/f")))
        (Step.request 1 copy_op inside (text "/e")))
      (Step.request 3 copy_op inside (text "/f"))

Reach-NoConflict_example : NoConflict two_jobs
Reach-NoConflict_example = Reach-NoConflict three_requests

abbrev found_files : Found (Text × Text)
found_files = record { files = (inside, text "x") ∷ []; dirs = [] ∷ []; bytes = 3 }

files_found : walk_files disk 2 folder [] 0 nothing_found ≡ some (ok found_files)
unfolding walk_files each_entry join list_beq
files_found = refl

abbrev job : Job
job = new_job copy_op folder (text "/e")

abbrev in_order : List (Text × Text) → List (Text × Text)
in_order files = files

same_length : (files : List (Text × Text)) → length (in_order files) ≡ length files
same_length files = refl

run_job-done_example :
    (r : Run ℕ) × (run_job disk env 2 in_order copy_op folder (text "/e") 0 job ≡ some r)
    × (r.job.status ≡ done)
    × (r.job.done_files ≡ r.job.total_files)
run_job-done_example =
    run_job-done disk env 2 in_order copy_op folder (text "/e") 0 job found_files files_found
      same_length (omega arith) refl

-- A place on a mount, where the folder is not.
abbrev mounted : Text
mounted = text "/h/webdav/a"

other_drive : (true && is_same_drive disk env folder mounted) ≡ false
unfolding is_same_drive path_drive root_a root_b join list_beq strip_parts parts_of
    Paths.strip_prefix
other_drive = refl

abbrev move_job : Job
move_job = new_job move_op folder mounted

abbrev begun : Run ℕ
begun = record {
  fs = 0;
  job = set_totals disk env found_files (record move_job { status = running });
  failed = 0;
}

abbrev after : Run ℕ
after =
    workers disk env move_op (is_same_drive disk env folder mounted) mounted ([] ∷ [])
      ((inside, text "x") ∷ []) begun

run_job_keeps_source_example :
    (r : Run ℕ) × (run_job disk env 2 in_order move_op folder mounted 0 move_job ≡ some r)
    × ((r.failed ≡ 0) ↔ (r.job.error ≡ none))
    × (((true ≡ true) × (r.job.error ≡ none) × (r.fs ≡ suc after.fs))
        ⊎ (((true ≡ false) ⊎ (r.job.error ≢ none)) × (r.fs ≡ after.fs)))
run_job_keeps_source_example =
    run_job_keeps_source disk env 2 in_order move_op folder mounted 0 move_job found_files
      files_found other_drive refl

abbrev found_entries : Found Text
found_entries = record { files = inside ∷ []; dirs = folder ∷ []; bytes = 3 }

entries_found : walk_delete disk 2 folder 0 nothing_found ≡ some (ok found_entries)
unfolding walk_delete each_entry join list_beq
entries_found = refl

abbrev names_in_order : List Text → List Text
names_in_order files = files

no_file : ((folder == inside) ≡ false)
unfolding list_beq
no_file = refl

run_delete_job-done_example :
    (r : Run ℕ) × (run_delete_job disk 2 names_in_order folder 0 job ≡ some r)
    × (((r.job.status ≡ done)
          × (r.failed ≡ 0)
          × (r.job.total_files ≡ length found_entries.files)
          × (r.job.done_files ≡ length found_entries.files)
          × (r.job.total_dirs ≡ length found_entries.dirs)
          × (r.job.done_dirs ≡ length found_entries.dirs)
          × ((emptied : ℕ) × AllSucceed disk disk.remove_file (inside ∷ []) 0 emptied
              × AllSucceed disk disk.remove_dir (folder ∷ []) emptied r.fs))
        ⊎ ((r.job.status ≡ error) × (r.failed ≢ 0)))
unfolding list_beq
run_delete_job-done_example =
    run_delete_job-done disk 2 names_in_order folder 0 job found_entries refl entries_found Perm.rfl
      (omega arith) (omega arith) refl refl

tree : Within disk 0 2 folder
unfolding list_beq join
tree = Within.node 1 folder (ok (text "x") ∷ []) refl refl (
    AllWithin.entry 1 folder (text "x") [] (Within.leaf 0 inside refl) (AllWithin.no_more 1 folder))

run_job-ends_example :
    (r : Run ℕ) × (run_job disk env 2 in_order copy_op folder (text "/e") 0 job ≡ some r)
    × (is_active r.job.status ≡ false)
run_job-ends_example = run_job-ends disk env 2 in_order copy_op folder (text "/e") 0 job tree

run_delete_job-ends_example :
    (r : Run ℕ) × (run_delete_job disk 2 names_in_order folder 0 job ≡ some r)
    × (is_active r.job.status ≡ false)
run_delete_job-ends_example = run_delete_job-ends disk 2 names_in_order folder 0 job tree

-- The folder is a link to a folder.
abbrev linked : Os
linked = record disk { is_symlink = λ p s. p == folder }

one_file : PlainFiles linked 0 folder (text "x" ∷ [])
unfolding list_beq join
one_file = (refl, (record { is_dir = false; is_symlink = false; len = 3; mtime = none }, refl), tt)

walk_delete_through_link_example :
    (found : Found Text) × (walk_delete linked 2 folder 0 nothing_found ≡ some (ok found))
    × (found.files ≡ map (join folder) (text "x" ∷ []))
    × (found.dirs ≡ folder ∷ [])
unfolding list_beq
walk_delete_through_link_example =
    walk_delete_through_link linked 0 0 folder (text "x" ∷ []) refl refl refl one_file

free_dst_lem_example :
    (disk.exists (free_dst disk inside 0) 0 ≡ false)
    ⊎ ((disk.exists inside 0 ≡ true)
        × AllExist disk inside 0 998 2
        × (free_dst disk inside 0 ≡ candidate disk inside 999))
free_dst_lem_example = free_dst_lem disk inside 0
