-- ===== src/Mover/Listing/Elevated.antt =====
-- `handle_ls` of src/bin/file-mover.rs with the helper of src/bin/file-mover-sudo.rs.
use web_davs_zk.Common.{
  true, false, some, none, [], ◌∷◌, ◌≡◌, refl, ◌==◌, nat_eq, list_eq, list_beq, arith,
}
use web_davs_zk.Common.Text.{Text, text}
use web_davs_zk.Io.{Os, IoError, err, is_permission_denied}
use web_davs_zk.Json.{Serde, SerdeLaws, text_field}
use web_davs_zk.Mover.Names.{Env, Params, param, resolve_path}
use web_davs_zk.Mover.Requests.{SpawnSudo, sudo_run}
use web_davs_zk.Mover.Requests.Elevated.{RunsHelper, text_field-object}
use web_davs_zk.Mover.Listing.{listing, ls_request, asked_path, list_entries, handle_ls}
use web_davs_zk.Sudo.{run, main}
use web_davs_zk.Sudo

module _ (os : Os) (env : Env) (j : Serde) (laws : SerdeLaws j) (spawn_sudo : SpawnSudo os) where
  open laws use {from_str-to_string, get-object}

  main-ls_fails :
      (p : Text) (s : os.State) (e : IoError)
      → os.read_dir p s ≡ err e
      → main os j 0 (j.to_string (ls_request os env j spawn_sudo p) ∷ []) s
        ≡ some ((0, j.to_string (j.object ((text "error", j.string e.message) ∷ []))), s)
  unfolding main run list_beq Sudo.list_entries
  main-ls_fails p s e h =
      let req = ls_request os env j spawn_sudo p in
      let op : text_field j (text "op") req ≡ text "ls" =
        text_field-object os env j laws spawn_sudo (text "op") (text "ls") _ refl in
      let at : text_field j (text "p") req ≡ p =
        text_field-object os env j laws spawn_sudo (text "p") p _ refl in
      rw (from_str-to_string req, main)
        (rw op (rw at (rw (h, Sudo.printed, Sudo.list_entries) refl)))

  -- Where the server may not read a directory, the password is right, and the helper cannot read the
  -- directory either, the server replies with success and `null` in place of the entries: the helper
  -- exits with 0 after an error, and its error is not looked at.
  pub handle_ls_of_failing_helper :
      (params : Params) (sp : Text) (s : os.State) (e : IoError)
      → let p = resolve_path env (asked_path os env j spawn_sudo (param (text "p") params)) in
        param (text "sudopass") params ≡ some sp
        → (sp == []) ≡ false
        → os.read_dir p s ≡ err e
        → is_permission_denied e ≡ true
        → RunsHelper os env j laws spawn_sudo sp
        → handle_ls os env j spawn_sudo params s ≡ (listing os env j spawn_sudo p j.null, s)
  unfolding handle_ls list_entries sudo_run list_beq
  handle_ls_of_failing_helper params sp s e ps asked refused denied runs =
      let p = resolve_path env (asked_path os env j spawn_sudo (param (text "p") params)) in
      let arg = j.to_string (ls_request os env j spawn_sudo p) in
      let printed = j.object ((text "error", j.string e.message) ∷ []) in
      let spawned = runs arg s s 0 (j.to_string printed) (main-ls_fails p s e refused) in
      let parsed = from_str-to_string printed in
      let bare : j.get (text "entries") printed ≡ none = get-object (text "entries") _ in
      ground (arith, ps, refused, denied, asked, spawned, parsed, bare)
