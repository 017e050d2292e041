-- ===== src/Mover/Start/Queue.antt =====
-- Which jobs `handle_move_copy` of src/bin/file-mover.rs starts.
use web_davs_zk.Common.{ℕ, ◌≢◌, none, some, [], ◌∷◌, ◌++◌, ◌≡◌, nat_eq, list_eq}
use web_davs_zk.Common.Text.{Text, text}
use web_davs_zk.Io.{Os, Result, ok}
use web_davs_zk.Json.{Serde, text_field}
use web_davs_zk.Mover.Jobs.{next_u64, Op, new_job, insert, find_duplicate}
use web_davs_zk.Mover.Jobs.Unique.{NoConflict}
use web_davs_zk.Mover.Names.{Env, dest_for}
use web_davs_zk.Mover.Requests.{Server, SpawnSudo}
use web_davs_zk.Mover.Start.{Handled, choose, deduped_reply, queued_reply}

module _ (os : Os) (env : Env) (j : Serde) (spawn_sudo : SpawnSudo os) where
  -- The server takes up one job: under the next id, which is counted up, as it is not done already.
  pub record Taken (op : Op) (src dst : Text) (st st' : Server os.State) : Type 0 where
    pub fresh : find_duplicate op src dst st.jobs ≡ none
    pub counted : st'.next_id ≡ next_u64 st.next_id
    pub entered : st'.jobs ≡ insert st.next_id (new_job op src dst) st.jobs
    pub given :
        st'.tasks ≡ st.tasks ++ record { id = st.next_id; op = op; src = src; dst = dst } ∷ []
    pub apart : NoConflict st.jobs → NoConflict st'.jobs

  -- The destination that the strategy of the body chooses.
  abbrev pub IsChosen : j.Value → Server os.State → Text → Type 0
  IsChosen v st dst =
      let src = text_field j (text "src") v in
      let wanted = dest_for os src (text_field j (text "dst") v) st.fs in
      choose os env j spawn_sudo (text_field j (text "strategy") v) wanted st.fs ≡ some dst

  -- What a request did to the registry, where `op` and the value of the body ask for the job. `h` is
  -- the reply and the server after it.
  pub data Starts (op : Op) (v : j.Value) (st : Server os.State) (h : Handled os env j spawn_sudo)
      : Type 0 where
    refused : h.0.status ≢ 202 → h.1.jobs ≡ st.jobs → h.1.tasks ≡ st.tasks → Starts op v st h
    known :
        (dst : Text) (eid : ℕ)
        → IsChosen v st dst
        → find_duplicate op (text_field j (text "src") v) dst st.jobs ≡ some eid
        → h.0 ≡ deduped_reply os env j spawn_sudo op eid
        → h.1.jobs ≡ st.jobs
        → h.1.tasks ≡ st.tasks
        → Starts op v st h
    one :
        (dst : Text)
        → IsChosen v st dst
        → h.0 ≡ queued_reply os env j spawn_sudo op st.next_id
        → Taken op (text_field j (text "src") v) dst st h.1
        → Starts op v st h

  -- What the request asks for is in its body, if that can be read.
  pub data Requests (op : Op) (body : Result Text) (st : Server os.State)
      (h : Handled os env j spawn_sudo) : Type 0 where
    unread : h.0.status ≡ 400 → h.1 ≡ st → Requests op body st h
    asks :
        (bytes : Text) (v : j.Value)
        → body ≡ ok bytes
        → j.from_str bytes ≡ some v
        → Starts op v st h
        → Requests op body st h
