-- ===== src/Mover/Listing.antt =====
-- `handle_ls` of src/bin/file-mover.rs.
pub mod Elevated
use mathlib.Core.Option
use web_davs_zk.Common.{
  ℕ, Bool, true, false, Option, none, some, List, [], ◌∷◌, ◌++◌, not, ◌==◌, nat_eq, list_eq,
  if◌then◌else◌,
}
use web_davs_zk.Common.Sort.{sort_by}
use web_davs_zk.Common.Text.{Text, text}
use web_davs_zk.Common.Text.Trim.{trim}
use web_davs_zk.Io.{Os, IoError, Result, ok, err, flatten, is_permission_denied}
use web_davs_zk.Io.Paths.{join}
use web_davs_zk.Json.{Serde}
use web_davs_zk.Mover.Names.{Env, Params, root_a, param, resolve_path}
use web_davs_zk.Mover.Requests.{
  Reply, SpawnSudo, sudo_run, error_reply, bad_password, needs_elevation,
}

module _ (os : Os) (env : Env) (j : Serde) (spawn_sudo : SpawnSudo os) where
  open j use {Value, null, boolean, number, string, array, object}

  abbrev pub entry : Text → Text → os.State → List Value
  entry p name s = elim (os.symlink_metadata (join p name) s) [
    | err _ ↦ []
    | ok md ↦
        object (
          (text "name", string name)
          ∷ (text "is_dir", boolean md.is_dir)
          ∷ (text "size", number (if md.is_dir then 0 else md.len))
          ∷ (text "mtime", number (Option.get_or md.mtime 0))
          ∷ (text "link", boolean md.is_symlink)
          ∷ [])
        ∷ []
  ]

  abbrev pub entries : Text → List Text → os.State → List Value
  entries p [] s = []
  entries p (name ∷ names) s = entry p name s ++ entries p names s

  unfoldable pub list_entries : Text → os.State → Result (List Value)
  list_entries p s = elim (os.read_dir p s) [
    | err e ↦ err e
    | ok names ↦ ok (entries p (sort_by (λ t. t) (flatten names)) s)
  ]

  abbrev pub listing : Text → Value → Reply Value
  listing p found = record {
    status = 200;
    body = object ((text "path", string p) ∷ (text "entries", found) ∷ []);
  }

  abbrev pub ls_request : Text → Value
  ls_request p = object ((text "op", string (text "ls")) ∷ (text "p", string p) ∷ [])

  -- `v["entries"]` is `null` where there is no such field.
  abbrev listed : Text → Option Value → Reply Value
  listed p none = bad_password os env j spawn_sudo
  listed p (some v) = listing p (Option.get_or (j.get (text "entries") v) null)

  abbrev list_elevated : Text → (ℕ × Text) × os.State → Reply Value × os.State
  list_elevated p ((rc, out), s) =
      (if rc == 0 then listed p (j.from_str out) else bad_password os env j spawn_sudo, s)

  abbrev list_failed : Text → Text → IoError → os.State → Reply Value × os.State
  list_failed sp p e s =
      if is_permission_denied e
      then if not (sp == [])
        then list_elevated p (sudo_run os env j spawn_sudo sp (ls_request p) s)
        else (needs_elevation os env j spawn_sudo, s)
      else (error_reply os env j spawn_sudo 500 e.message, s)

  abbrev pub after_listing : Text → Text → Result (List Value) → os.State → Reply Value × os.State
  after_listing sp p (ok found) s = (listing p (array found), s)
  after_listing sp p (err e) s = list_failed sp p e s

  -- A path that is blank or missing stands for the first root.
  abbrev pub asked_path : Option Text → Text
  asked_path none = root_a env
  asked_path (some p) = if trim p == [] then root_a env else trim p

  unfoldable pub handle_ls : Params → os.State → Reply Value × os.State
  unfolding list_entries sudo_run
  handle_ls params s =
      let p = resolve_path env (asked_path (param (text "p") params)) in
      let sp = Option.get_or (param (text "sudopass") params) [] in
      after_listing sp p (list_entries p s) s
