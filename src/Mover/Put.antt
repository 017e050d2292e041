-- ===== src/Mover/Put.antt =====
-- `handle_put` of src/bin/file-mover.rs. The temporary directory, the process id and the time are
-- parameters.
pub mod Outcome
use mathlib.Core.Option
use web_davs_zk.Common.{
  ℕ, Bool, true, false, Option, none, some, List, [], ◌∷◌, ◌++◌, not, ◌||◌, ◌==◌, nat_eq, list_eq,
  if◌then◌else◌,
}
use web_davs_zk.Common.Text.{Text, text, show}
use web_davs_zk.Io.{Os, IoError, Result, ok, err, is_permission_denied, is_crosses_devices}
use web_davs_zk.Io.Paths.{join, parent}
use web_davs_zk.Json.{Serde}
use web_davs_zk.Mover.Names.{Env, Params, param}
use web_davs_zk.Mover.Requests.{
  Reply, SpawnSudo, sudo_run, error_reply, ok_reply, bad_password, needs_elevation,
}
use web_davs_zk.Mover.Walk.{copy_file}

-- The frames of a request's body, up to the first that cannot be read; one that has no data is a
-- trailer.
abbrev pub Frames : Type 0
Frames = List (Result (Option (List ℕ)))

unfoldable pub temp_path : Text → ℕ → ℕ → Text
temp_path temp_dir pid nanos = join temp_dir (text "mover-" ++ (show pid ++ (b'-' ∷ show nanos)))

module _ (os : Os) (env : Env) (j : Serde) (spawn_sudo : SpawnSudo os) where
  open j use {Value, boolean, number, string, object}

  abbrev Handled : Type 0
  Handled = Reply Value × os.State

  abbrev pub server_error : IoError → Reply Value
  server_error e = error_reply os env j spawn_sudo 500 e.message

  -- The loop over the frames; the temporary file is removed where it ends early.
  unfoldable pub write_frames : ℕ → Frames → os.State → Result (Unit {0}) × os.State
  write_frames handle [] s = (ok tt, s)
  write_frames handle (err e ∷ frames) s = (err e, s)
  write_frames handle (ok none ∷ frames) s = write_frames handle frames s
  write_frames handle (ok (some buf) ∷ frames) s =
      let (r, s') = os.write_all handle buf s in
      elim r [ err e ↦ (err e, s') | ok _ ↦ write_frames handle frames s' ]

  -- `let _ = std::fs::remove_file(&tmp)`, and the reply.
  abbrev pub clean_up : Text → Reply Value → os.State → Handled
  clean_up tmp reply s = (reply, (os.remove_file tmp s).1)

  abbrev pub put_request : Text → Text → Value
  put_request dst tmp =
      object (
        (text "op", string (text "put")) ∷ (text "dst", string dst) ∷ (text "tmp", string tmp) ∷ [])

  abbrev put_elevated : Text → Text → (ℕ × Text) × os.State → Handled
  put_elevated tmp dst ((rc, out), s) =
      if rc == 0
      then (ok_reply os env j spawn_sudo dst, s)
      else clean_up tmp (bad_password os env j spawn_sudo) s

  abbrev pub ask_sudo : Text → Text → Text → os.State → Handled
  ask_sudo sp tmp dst s =
      if not (sp == [])
      then put_elevated tmp dst (sudo_run os env j spawn_sudo sp (put_request dst tmp) s)
      else clean_up tmp (needs_elevation os env j spawn_sudo) s

  abbrev after_copy : Text → Text → Text → Result ℕ × os.State → Handled
  after_copy sp tmp dst (ok _, s) = clean_up tmp (ok_reply os env j spawn_sudo dst) s
  after_copy sp tmp dst (err e, s) =
      if is_permission_denied e then ask_sudo sp tmp dst s else clean_up tmp (server_error e) s

  abbrev after_rename : Text → Text → Text → Result (Unit {0}) × os.State → Handled
  after_rename sp tmp dst (ok _, s) = (ok_reply os env j spawn_sudo dst, s)
  after_rename sp tmp dst (err e, s) =
      if is_crosses_devices e
      then after_copy sp tmp dst (copy_file os tmp dst s)
      else if is_permission_denied e
      then ask_sudo sp tmp dst s
      else clean_up tmp (server_error e) s

  -- `create_dir_all` of the parent, with its result dropped.
  abbrev pub make_parent : Option Text → os.State → os.State
  make_parent none s = s
  make_parent (some dir) s = (os.create_dir_all dir s).1

  -- From the rename on.
  abbrev pub move_into_place : Text → Text → Text → os.State → Handled
  move_into_place sp tmp dst s =
      let s' = make_parent (parent dst) s in after_rename sp tmp dst (os.rename tmp dst s')

  abbrev after_flush : Text → Text → Text → Result (Unit {0}) × os.State → Handled
  after_flush sp tmp dst (err e, s) = clean_up tmp (server_error e) s
  after_flush sp tmp dst (ok _, s) = move_into_place sp tmp dst s

  abbrev after_frames : Text → Text → Text → ℕ → Result (Unit {0}) × os.State → Handled
  after_frames sp tmp dst handle (err e, s) = clean_up tmp (server_error e) s
  after_frames sp tmp dst handle (ok _, s) = after_flush sp tmp dst (os.flush handle s)

  abbrev after_create : Text → Text → Text → Frames → Result ℕ × os.State → Handled
  after_create sp tmp dst frames (err e, s) = (server_error e, s)
  after_create sp tmp dst frames (ok handle, s) =
      after_frames sp tmp dst handle (write_frames handle frames s)

  unfoldable pub handle_put : Text → Params → Frames → os.State → Handled
  unfolding write_frames sudo_run
  handle_put tmp params frames s =
      let dst = Option.get_or (param (text "dst") params) [] in
      let sp = Option.get_or (param (text "sudopass") params) [] in
      after_create sp tmp dst frames (os.create tmp s)
