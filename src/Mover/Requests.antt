-- ===== src/Mover/Requests.antt =====
-- The handlers of src/bin/file-mover.rs that change files or start jobs. `sudo` is a parameter.
pub mod Elevated
use mathlib.Core.Option
use web_davs_zk.Common.{
  ℕ, Bool, true, false, Option, none, some, List, [], ◌∷◌, ◌++◌, ◌&&◌, ◌||◌, not, ◌==◌, nat_eq,
  list_eq, if◌then◌else◌,
}
use web_davs_zk.Common.Text.{Text, text}
use web_davs_zk.Common.Text.Split.{contains}
use web_davs_zk.Io.{Os, IoError, Result, ok, err, is_permission_denied}
use web_davs_zk.Io.Paths.{join, parent, same_path}
use web_davs_zk.Json.{Serde, text_at, text_field}
use web_davs_zk.Mover.Jobs.{
  Op, move_op, copy_op, delete_op, Jobs, new_job, insert, register, next_u64,
}
use web_davs_zk.Mover.Names.{Env, Params, param, resolve_path, dest_for, free_dst}

-- A job that is given to a thread of its own: `run_job` or `run_delete_job` with its arguments.
pub record Task : Type 0 where
  pub id : ℕ
  pub op : Op
  pub src : Text
  pub dst : Text

-- What all requests share: the file system, `NEXT_ID`, `JOBS`, and the jobs that were started.
pub record Server (State : Type 0) : Type 0 where
  pub fs : State
  pub next_id : ℕ
  pub jobs : Jobs
  pub tasks : List Task

-- `json_resp`: the status and the body.
pub record Reply (Value : Type 0) : Type 0 where
  pub status : ℕ
  pub body : Value

-- `sudo -S -p "" file-mover-sudo <arg>`, with the text on stdin: its exit code and stdout, or
-- nothing if it could not be started.
abbrev pub SpawnSudo : Os → Type 0
SpawnSudo os = Text → Text → os.State → Option (ℕ × Text) × os.State

module _ (os : Os) (env : Env) (j : Serde) (spawn_sudo : SpawnSudo os) where
  open j use {Value, boolean, number, string, object}

  abbrev exit_of : Option (ℕ × Text) × os.State → (ℕ × Text) × os.State
  exit_of (none, s) = ((1, []), s)
  exit_of (some (code, out), s) = ((code, out), s)

  unfoldable pub sudo_run : Text → Value → os.State → (ℕ × Text) × os.State
  sudo_run passwd req s = exit_of (spawn_sudo (passwd ++ b'\n' ∷ []) (j.to_string req) s)

  abbrev pub error_reply : ℕ → Text → Reply Value
  error_reply status message = record {
    status = status;
    body = object ((text "error", string message) ∷ []);
  }

  abbrev pub ok_reply : Text → Reply Value
  ok_reply dst = record {
    status = 200;
    body = object ((text "ok", boolean true) ∷ (text "dst", string dst) ∷ []);
  }

  abbrev pub bad_password : Reply Value
  bad_password = error_reply 403 (text "permission denied / bad password")

  abbrev pub needs_elevation : Reply Value
  needs_elevation = record {
    status = 403;
    body =
        object (
          (text "error", string (text "permission denied"))
          ∷ (text "elevation", boolean true)
          ∷ []);
  }

  abbrev pub mkdir_request : Text → Value
  mkdir_request dst = object ((text "op", string (text "mkdir")) ∷ (text "dst", string dst) ∷ [])

  abbrev mkdir_elevated : Text → (ℕ × Text) × os.State → Reply Value × os.State
  mkdir_elevated dst ((rc, out), s) = (if rc == 0 then ok_reply dst else bad_password, s)

  unfoldable pub handle_mkdir : Params → os.State → Reply Value × os.State
  unfolding sudo_run
  handle_mkdir params s =
      let dst = Option.get_or (param (text "dst") params) [] in
      let sp = Option.get_or (param (text "sudopass") params) [] in
      let (made, s') = os.create_dir_all dst s in
      elim made [
        | ok _ ↦ (ok_reply dst, s')
        | err e ↦
            if is_permission_denied e
            then if not (sp == [])
              then mkdir_elevated dst (sudo_run sp (mkdir_request dst) s')
              else (needs_elevation, s')
            else (error_reply 500 e.message, s')
      ]

  -- `collect()` and `from_slice` on the request's body.
  abbrev pub parse_body :
      Result Text → (Value → os.State → Reply Value × os.State) → os.State → Reply Value × os.State
  parse_body (err e) handle s = (error_reply 400 e.message, s)
  parse_body (ok bytes) handle s = elim (j.from_str bytes) [
    | none ↦ (error_reply 400 (text "bad json"), s)
    | some v ↦ handle v s
  ]

  -- The exit code is 0, and the output is JSON with a text under `dst`.
  abbrev dst_of_output : Text → Option Text
  dst_of_output out = elim (j.from_str out) [ none ↦ none | some v ↦ text_at j (text "dst") v ]

  abbrev rename_elevated : (ℕ × Text) × os.State → Reply Value × os.State
  rename_elevated ((rc, out), s) =
      let reply : Reply Value = elim (dst_of_output out) [
        | none ↦ bad_password
        | some d ↦ ok_reply d
      ] in
      (if rc == 0 then reply else bad_password, s)

  abbrev pub rename_request : Text → Text → Value
  rename_request src name = object (
      (text "op", string (text "rename"))
      ∷ (text "src", string src)
      ∷ (text "name", string name)
      ∷ [])

  abbrev pub bad_name : Text → Bool
  bad_name name =
      name == [] || (contains (text "/") name || (name == text "." || name == text ".."))

  abbrev rename_failed : Text → Text → Text → IoError → os.State → Reply Value × os.State
  rename_failed sp src name e s =
      if is_permission_denied e
      then if not (sp == [])
        then rename_elevated (sudo_run sp (rename_request src name) s)
        else (needs_elevation, s)
      else (error_reply 500 e.message, s)

  abbrev rename_to : Text → Text → Text → Text → os.State → Reply Value × os.State
  rename_to sp src name dst s =
      let (renamed, s') = os.rename src dst s in
      elim renamed [ ok _ ↦ (ok_reply dst, s') | err e ↦ rename_failed sp src name e s' ]

  abbrev rename_in : Text → Text → Text → Option Text → os.State → Reply Value × os.State
  rename_in sp src name none s = (error_reply 400 (text "no parent"), s)
  rename_in sp src name (some dir) s =
      let dst = join dir name in
      if os.exists dst s
      then (error_reply 409 (text "destination exists: " ++ dst), s)
      else rename_to sp src name dst s

  unfoldable pub rename_value : Value → os.State → Reply Value × os.State
  unfolding sudo_run
  rename_value v s =
      let src = text_field j (text "src") v in
      let name = text_field j (text "name") v in
      let sp = text_field j (text "sudopass") v in
      let src_p = resolve_path env src in
      if src == [] || bad_name name
      then (error_reply 400 (text "invalid name"), s)
      else rename_in sp src_p name (parent src_p) s

  unfoldable pub handle_rename : Result Text → os.State → Reply Value × os.State
  handle_rename body s = parse_body body rename_value s
