-- ===== src/Mover/Put/Outcome.antt =====
-- How a request ends that sends a file to `handle_put` of src/bin/file-mover.rs.
use mathlib.Core.Option
use web_davs_zk.Common.{ℕ, ◌≡◌, ◌≢◌, true, [], nat_eq, list_eq}
use web_davs_zk.Common.Text.{Text}
use web_davs_zk.Io.{Os, IoError, ok, err, is_crosses_devices}
use web_davs_zk.Io.Paths.{parent}
use web_davs_zk.Json.{Serde}
use web_davs_zk.Mover.Names.{Env}
use web_davs_zk.Mover.Requests.{Reply, SpawnSudo, sudo_run, ok_reply}
use web_davs_zk.Mover.Walk.{copy_file}
use web_davs_zk.Mover.Put.{Frames, server_error, write_frames, put_request, make_parent}

module _ (os : Os) (env : Env) (j : Serde) (spawn_sudo : SpawnSudo os) (tmp : Text) where
  -- All frames were written to the new temporary file, and flushed.
  pub record Written (frames : Frames) (s t : os.State) : Type 0 where
    pub handle : ℕ
    pub opened : os.State
    pub filled : os.State
    pub created : os.create tmp s ≡ (ok handle, opened)
    pub framed : write_frames os env j spawn_sudo handle frames opened ≡ (ok tt, filled)
    pub flushed : os.flush handle filled ≡ (ok tt, t)

  module _ (sp dst : Text) where
    -- What success is answered after: a rename, a copy to another device, or exit code 0 of the
    -- helper, which need not mean that it has stored the file.
    pub data Stored (t : os.State) : os.State → Type 0 where
      renamed : (u : os.State) → os.rename tmp dst t ≡ (ok tt, u) → Stored t u
      copied :
          (e : IoError) (u v : os.State) (n : ℕ)
          → os.rename tmp dst t ≡ (err e, u)
          → is_crosses_devices e ≡ true
          → copy_file os tmp dst u ≡ (ok n, v)
          → Stored t (os.remove_file tmp v).1
      helped :
          (u v : os.State) (out : Text)
          → sp ≢ []
          → sudo_run os env j spawn_sudo sp (put_request os env j spawn_sudo dst tmp) u
            ≡ ((0, out), v)
          → Stored t v

    -- From the rename on, success is answered, or the removal of the temporary file is the last call.
    data Moved (t : os.State) : Reply j.Value × os.State → Type 0 where
      placed : (u : os.State) → Stored t u → Moved t (ok_reply os env j spawn_sudo dst, u)
      cleaned :
          (reply : Reply j.Value) (u : os.State)
          → reply.status ≢ 200
          → Moved t (reply, (os.remove_file tmp u).1)

  -- How a request to put a file ends: with success, with an error after a call that removes the
  -- temporary file, or with an error because there is no temporary file.
  pub data Ends (sp dst : Text) (frames : Frames) (s : os.State)
      : Reply j.Value × os.State → Type 0 where
    stored :
        (t u : os.State)
        → Written frames s t
        → Stored sp dst (make_parent os env j spawn_sudo (parent dst) t) u
        → Ends sp dst frames s (ok_reply os env j spawn_sudo dst, u)
    removed :
        (reply : Reply j.Value) (u : os.State)
        → reply.status ≢ 200
        → Ends sp dst frames s (reply, (os.remove_file tmp u).1)
    not_created :
        (e : IoError) (u : os.State)
        → os.create tmp s ≡ (err e, u)
        → Ends sp dst frames s (server_error os env j spawn_sudo e, u)
