-- ===== src/Sudo.antt =====
-- src/bin/file-mover-sudo.rs: one operation as root. Its `copy_file`, `dest_for` and `free_dst` are
-- those of src/bin/file-mover.rs. What `main` prints is without the newline at its end.
pub mod Tree
pub mod Protocol
use mathlib.Core.Option
use web_davs_zk.Common.{
  ℕ, zero, suc, Bool, true, false, Option, none, some, List, [], ◌∷◌, ◌++◌, ◌&&◌, ◌||◌, not, ◌==◌,
  nat_eq, list_eq, ltb, if◌then◌else◌,
}
use web_davs_zk.Common.Text.{Text, text}
use web_davs_zk.Io.{Os, IoError, Result, ok, err, flatten, is_crosses_devices}
use web_davs_zk.Io.Paths.{join, parent}
use web_davs_zk.Json.{Serde, text_field}
use web_davs_zk.Mover.Names.{dest_for, free_dst}
use web_davs_zk.Mover.Walk.{copy_file}
use web_davs_zk.Common.Sort.{sort_by}
use web_davs_zk.Sudo.Tree.{then_go, copy_recursive, remove_recursive, choose}

-- `Result<_, String>`
pub data Answer (A : Type 0) : Type 0 where
  answered : A → Answer A
  refused : Text → Answer A

module _ (os : Os) (j : Serde) where
  open j use {Value, boolean, number, string, array, object}

  abbrev entry : Text → Text → os.State → List Value
  entry p name s = elim (os.symlink_metadata (join p name) s) [
    | err _ ↦ []
    | ok md ↦
        object (
          (text "name", string name)
          ∷ (text "is_dir", boolean md.is_dir)
          ∷ (text "size", number (if md.is_dir then 0 else md.len))
          ∷ (text "mtime", number 0)
          ∷ (text "link", boolean md.is_symlink)
          ∷ [])
        ∷ []
  ]

  abbrev entries : Text → List Text → os.State → List Value
  entries p [] s = []
  entries p (name ∷ names) s = entry p name s ++ entries p names s

  unfoldable pub list_entries : Text → os.State → Answer Value
  list_entries p s = elim (os.read_dir p s) [
    | err e ↦ refused e.message
    | ok names ↦
        answered
          (object ((text "entries", array (entries p (sort_by (λ t. t) (flatten names)) s)) ∷ []))
  ]

  -- The answer after the last call, `.map_err(|e| e.to_string())?`.
  abbrev pub finish : Value → Result (Unit {0}) × os.State → Answer Value × os.State
  finish v (ok _, s) = (answered v, s)
  finish v (err e, s) = (refused e.message, s)

  abbrev pub dst_value : Text → Value
  dst_value dst = object ((text "dst", string dst) ∷ [])

  abbrev pub conflict_value : Text → Value
  conflict_value dst = object (
      (text "conflict", boolean true)
      ∷ (text "dst", string dst)
      ∷ (text "error", string (text "destination exists: " ++ dst))
      ∷ [])

  abbrev then_finish :
      Text → Option (Result (Unit {0}) × os.State) → Option (Answer Value × os.State)
  then_finish dst none = none
  then_finish dst (some r) = some (finish (dst_value dst) r)

  abbrev then_remove :
      Text → Text → Option (Result (Unit {0}) × os.State) → Option (Answer Value × os.State)
  then_remove src dst none = none
  then_remove src dst (some (err e, s)) = some (refused e.message, s)
  then_remove src dst (some (ok _, s)) = some (finish (dst_value dst) (remove_recursive os src s))

  abbrev move_tree :
      ℕ → Text → Text → Result (Unit {0}) × os.State → Option (Answer Value × os.State)
  move_tree fuel src dst (ok _, s) = some (answered (dst_value dst), s)
  move_tree fuel src dst (err e, s) =
      if is_crosses_devices e
      then then_remove src dst (copy_recursive os fuel src dst s)
      else some (refused e.message, s)

  -- The arms "move" and "copy".
  unfoldable pub run_transfer : ℕ → Bool → Value → os.State → Option (Answer Value × os.State)
  run_transfer fuel moves req s =
      let src = text_field j (text "src") req in
      let dst = dest_for os src (text_field j (text "dst") req) s in
      elim (choose os (text_field j (text "strategy") req) dst s) [
        | none ↦ some (answered (conflict_value dst), s)
        | some free ↦
            if moves
            then move_tree fuel src free (os.rename src free s)
            else then_finish free (copy_recursive os fuel src free s)
      ]

  abbrev rename_beside : Text → Text → Option Text → os.State → Answer Value × os.State
  rename_beside src name none s = (refused (text "no parent"), s)
  rename_beside src name (some dir) s =
      let dst = join dir name in
      if os.exists dst s
      then (refused (text "destination exists: " ++ dst), s)
      else finish (dst_value dst) (os.rename src dst s)

  unfoldable pub run_delete : Text → os.State → Answer Value × os.State
  run_delete p s = elim (os.symlink_metadata p s) [
    | err e ↦ (refused e.message, s)
    | ok md ↦
        finish (object ((text "ok", boolean true) ∷ []))
          (if md.is_dir then os.remove_dir_all p s else os.remove_file p s)
  ]

  abbrev after_parent : Text → Text → Result (Unit {0}) × os.State → Answer Value × os.State
  after_parent tmp dst (err e, s) = (refused e.message, s)
  after_parent tmp dst (ok _, s) =
      let (copied, s') = copy_file os tmp dst s in
      elim copied [
        | err e ↦ (refused e.message, s')
        | ok _ ↦ (answered (dst_value dst), (os.remove_file tmp s').1)
      ]

  unfoldable pub run_put : Text → Text → os.State → Answer Value × os.State
  run_put tmp dst s = elim (parent dst) [
    | none ↦ after_parent tmp dst (ok tt, s)
    | some dir ↦ after_parent tmp dst (os.create_dir_all dir s)
  ]

  unfoldable pub run : ℕ → Text → Value → os.State → Option (Answer Value × os.State)
  run fuel op req s =
      let at = λ (k : Text). text_field j k req in
      if op == text "ls"
      then some (list_entries (at (text "p")) s, s)
      else if op == text "move" || op == text "copy"
      then run_transfer fuel (op == text "move") req s
      else if op == text "rename"
      then some (rename_beside (at (text "src")) (at (text "name")) (parent (at (text "src"))) s)
      else if op == text "mkdir"
      then some (finish (dst_value (at (text "dst"))) (os.create_dir_all (at (text "dst")) s))
      else if op == text "delete"
      then some (run_delete (at (text "src")) s)
      else if op == text "put"
      then some (run_put (at (text "tmp")) (at (text "dst")) s)
      else some (refused (text "unknown op"), s)

  abbrev pub printed : Answer Value → Text
  printed (answered v) = j.to_string v
  printed (refused e) = j.to_string (object ((text "error", string e) ∷ []))

  -- The exit code, and what is printed on stdout. `args` has no program's name in front.
  unfoldable pub main : ℕ → List Text → os.State → Option ((ℕ × Text) × os.State)
  main fuel [] s = some ((1, []), s)
  main fuel (arg ∷ args) s = elim (j.from_str arg) [
    | none ↦ some ((1, j.to_string (object ((text "error", string (j.parse_error arg)) ∷ []))), s)
    | some req ↦ elim (run fuel (text_field j (text "op") req) req s) [
      | none ↦ none
      | some (a, s') ↦ some ((0, printed a), s')
    ]
  ]
