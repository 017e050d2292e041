-- ===== src/Mover/Requests/Elevated.antt =====
-- `handle_mkdir` of src/bin/file-mover.rs with the helper of src/bin/file-mover-sudo.rs.
use web_davs_zk.Common.{
  ℕ, true, false, some, List, [], ◌∷◌, ◌++◌, ◌≡◌, refl, ◌==◌, nat_eq, list_eq, list_beq, arith,
}
use web_davs_zk.Common.Text.{Text, text}
use web_davs_zk.Io.{Os, IoError, err, is_permission_denied}
use web_davs_zk.Json.{Serde, SerdeLaws, field, text_field}
use web_davs_zk.Mover.Names.{Env, Params, param}
use web_davs_zk.Mover.Requests.{SpawnSudo, sudo_run, ok_reply, mkdir_request, handle_mkdir}
use web_davs_zk.Sudo.{run, main}

module _ (os : Os) (env : Env) (j : Serde) (laws : SerdeLaws j) (spawn_sudo : SpawnSudo os) where
  open laws use {from_str-to_string, get-object, as_str-string}

  pub text_field-object :
      (k t : Text) (fields : List (Text × j.Value))
      → field k fields ≡ some (j.string t)
      → text_field j k (j.object fields) ≡ t
  text_field-object k t fields e = cc (get-object k fields, e, as_str-string t)

  -- `sudo` accepts the password and runs the helper, whose fuel for copies is not used here.
  abbrev pub RunsHelper : Text → Type 0
  RunsHelper passwd =
      (arg : Text) (s s' : os.State) (rc : ℕ) (out : Text)
      → main os j 0 (arg ∷ []) s ≡ some ((rc, out), s')
      → spawn_sudo (passwd ++ b'\n' ∷ []) arg s ≡ (some (rc, out), s')

  main-mkdir_fails :
      (dst : Text) (s s' : os.State) (e : IoError)
      → os.create_dir_all dst s ≡ (err e, s')
      → main os j 0 (j.to_string (mkdir_request os env j spawn_sudo dst) ∷ []) s
        ≡ some ((0, j.to_string (j.object ((text "error", j.string e.message) ∷ []))), s')
  unfolding main run list_beq
  main-mkdir_fails dst s s' e h =
      let req = mkdir_request os env j spawn_sudo dst in
      let op : text_field j (text "op") req ≡ text "mkdir" =
        text_field-object (text "op") (text "mkdir") _ refl in
      let at : text_field j (text "dst") req ≡ dst = text_field-object (text "dst") dst _ refl in
      rw (from_str-to_string req, main) (rw op (rw at (rw h refl)))

  -- Where the server may not create the directory, the password is right, and the helper cannot
  -- create the directory either, the server replies that the directory has been created: the helper
  -- exits with 0 after an error, and only its exit code is looked at.
  pub handle_mkdir_of_failing_helper :
      (params : Params) (dst sp : Text) (s s' s'' : os.State) (e e' : IoError)
      → param (text "dst") params ≡ some dst
      → param (text "sudopass") params ≡ some sp
      → (sp == []) ≡ false
      → os.create_dir_all dst s ≡ (err e, s')
      → is_permission_denied e ≡ true
      → RunsHelper sp
      → os.create_dir_all dst s' ≡ (err e', s'')
      → handle_mkdir os env j spawn_sudo params s ≡ (ok_reply os env j spawn_sudo dst, s'')
  unfolding handle_mkdir sudo_run
  handle_mkdir_of_failing_helper params dst sp s s' s'' e e' pd ps asked first denied runs second =
      let arg = j.to_string (mkdir_request os env j spawn_sudo dst) in
      let spawned = runs arg s' s'' 0 _ (main-mkdir_fails dst s' s'' e' second) in
      ground (arith, pd, ps, first, denied, asked, spawned)
