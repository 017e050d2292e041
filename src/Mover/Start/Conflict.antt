-- ===== src/Mover/Start/Conflict.antt =====
-- What `handle_move_copy` of src/bin/file-mover.rs makes of the helper's answers.
use web_davs_zk.Common.{
  ℕ, Bool, true, none, some, List, [], ◌∷◌, ◌++◌, ◌≡◌, refl, nat_eq, list_eq, list_beq, arith,
}
use web_davs_zk.Common.Text.{Text, text}
use web_davs_zk.Io.{Os}
use web_davs_zk.Json.{Serde, SerdeLaws, field, text_at, text_field}
use web_davs_zk.Mover.Jobs.{Op}
use web_davs_zk.Mover.Names.{Env, dest_for}
use web_davs_zk.Mover.Requests.{SpawnSudo}
use web_davs_zk.Mover.Start.{transferred, elevated_reply}
use web_davs_zk.Sudo.Tree.{choose}
use web_davs_zk.Sudo.{answered, conflict_value, run_transfer, printed}

module _ (os : Os) (env : Env) (j : Serde) (laws : SerdeLaws j) (spawn_sudo : SpawnSudo os) where
  open laws use {from_str-to_string, get-object, as_str-string}

  text_at-object :
      (k t : Text) (fields : List (Text × j.Value))
      → field k fields ≡ some (j.string t)
      → text_at j k (j.object fields) ≡ some t
  text_at-object k t fields e = rw (get-object k fields, text_at) (rw e (as_str-string t))

  conflict-transferred :
      (op : Op) (dst : Text)
      → elevated_reply os env j spawn_sudo op (0, j.to_string (conflict_value os j dst))
        ≡ transferred os env j spawn_sudo op dst
  unfolding elevated_reply list_beq
  conflict-transferred op dst =
      let fields : List (Text × j.Value) =
        (text "conflict", j.boolean true)
        ∷ (text "dst", j.string dst)
        ∷ (text "error", j.string (text "destination exists: " ++ dst))
        ∷ [] in
      cc (from_str-to_string (conflict_value os j dst), text_at-object (text "dst") dst fields refl)

  -- Where the helper finds that the destination exists, and the strategy does not say what to do, it
  -- does nothing and answers that there is a conflict; the server takes that for a file or tree that
  -- has been moved or copied there, and replies 200 with `ok`.
  pub conflict_is_taken_for_success :
      (fuel : ℕ) (moves : Bool) (op : Op) (req : j.Value) (s : os.State) (dst : Text)
      → dest_for os (text_field j (text "src") req) (text_field j (text "dst") req) s ≡ dst
      → choose os (text_field j (text "strategy") req) dst s ≡ none
      → (run_transfer os j fuel moves req s ≡ some (answered (conflict_value os j dst), s))
        × (elevated_reply os env j spawn_sudo op
              (0, printed os j (answered (conflict_value os j dst)))
            ≡ transferred os env j spawn_sudo op dst)
  unfolding run_transfer
  conflict_is_taken_for_success fuel moves op req s dst d c =
      (ground (arith), conflict-transferred op dst)
