-- ===== src/Mover/Route.antt =====
-- `route` of src/bin/file-mover.rs, and the requests that only read. What surrounds the program, its
-- process and the clock, is a parameter.
pub mod Reading
pub mod Registry
use mathlib.Core.Option
use web_davs_zk.Common.{
  ℕ, Bool, true, false, Option, none, some, List, [], ◌∷◌, ◌++◌, ◌&&◌, ◌||◌, ◌==◌, nat_eq, list_eq,
  if◌then◌else◌,
}
use web_davs_zk.Common.Text.{Text, text}
use web_davs_zk.Io.{Os, Result}
use web_davs_zk.Json.{Serde}
use web_davs_zk.Mover.Jobs.{Job, Jobs, Status, queued, running, done, error}
use web_davs_zk.Mover.Names.{Env, Params, root_a, root_b, parse_query}
use web_davs_zk.Mover.Requests.{Reply, Server, SpawnSudo, handle_mkdir, handle_rename}
use web_davs_zk.Mover.Start.{op_name, handle_move_copy, handle_delete}
use web_davs_zk.Mover.Search.Polling.{Searches, handle_search_start, handle_search}
use web_davs_zk.Mover.Listing.{handle_ls}
use web_davs_zk.Mover.Put.{Frames, temp_path, handle_put}

abbrev pub status_name : Status → Text
status_name queued = text "queued"
status_name running = text "running"
status_name done = text "done"
status_name error = text "error"

-- A request. A handler reads the body in one of two ways: as a whole, or frame by frame.
pub record Request : Type 0 where
  pub method : Text
  pub path : Text
  pub query : Option Text
  pub body : Result Text
  pub frames : Frames

-- What surrounds the program: `HTML`, the build's commit and version, `FM_UPDATE_SCRIPT`,
-- `std::env::temp_dir`, the process id, the clock, and `sh -c` of a command, in the background.
pub record Host (State : Type 0) : Type 0 where
  pub html : Text
  pub git_commit : Text
  pub version : Text
  pub update_script : Option Text
  pub temp_dir : Text
  pub pid : ℕ
  pub nanos : State → ℕ
  pub percent_decode : Text → Text
  pub spawn_shell : Text → State → State

-- All that requests share.
pub record Service (State : Type 0) (Value : Type 0) : Type 0 where
  pub server : Server State
  pub searches : Searches Value

-- What the statics are before the first request.
abbrev pub initial : {State Value : Type 0} → State → Service State Value
initial s = record {
  server = record { fs = s; next_id = 1; jobs = []; tasks = [] };
  searches = record { next_search = 1; searches = []; walks = [] };
}

-- `text_resp` with the page, or `json_resp`.
pub data Answer (Value : Type 0) : Type 0 where
  page : Text → Answer Value
  json : Reply Value → Answer Value

abbrev pub port : ℕ
port = 8787

module _ (os : Os) (env : Env) (j : Serde) (spawn_sudo : SpawnSudo os) (host : Host os.State) where
  open j use {Value, null, boolean, number, string, array, object}

  abbrev pub Handled : Type 0
  Handled = Answer Value × Service os.State Value

  abbrev error_value : Option Text → Value
  error_value none = null
  error_value (some e) = string e

  abbrev strings : List Text → List Value
  strings [] = []
  strings (t ∷ ts) = string t ∷ strings ts

  abbrev pub job_value : ℕ → Job → Value
  job_value id job = object (
      (text "id", number id)
      ∷ (text "op", string (op_name job.op))
      ∷ (text "src", string job.src)
      ∷ (text "dst", string job.dst)
      ∷ (text "total_files", number job.total_files)
      ∷ (text "done_files", number job.done_files)
      ∷ (text "total_dirs", number job.total_dirs)
      ∷ (text "done_dirs", number job.done_dirs)
      ∷ (text "total_bytes", number job.total_bytes)
      ∷ (text "done_bytes", number job.done_bytes)
      ∷ (text "current", array (strings job.current))
      ∷ (text "status", string (status_name job.status))
      ∷ (text "error", error_value job.error)
      ∷ [])

  abbrev pub job_values : Jobs → List Value
  job_values [] = []
  job_values ((id, job) ∷ m) = job_value id job ∷ job_values m

  unfoldable pub handle_status : Jobs → Reply Value
  handle_status m = record {
    status = 200;
    body = object ((text "jobs", array (job_values m)) ∷ []);
  }

  abbrev roots_reply : Reply Value
  roots_reply = record {
    status = 200;
    body = object (
        (text "root_a", string (root_a env))
        ∷ (text "root_b", string (root_b env))
        ∷ (text "target_pc", string (root_a env))
        ∷ (text "this_pc", string (root_b env))
        ∷ []);
  }

  abbrev version_reply : Reply Value
  version_reply = record {
    status = 200;
    body = object (
        (text "commit", string host.git_commit)
        ∷ (text "version", string host.version)
        ∷ (text "port", number port)
        ∷ []);
  }

  abbrev not_found : Reply Value
  not_found = record {
    status = 404;
    body = object ((text "error", string (text "not found")) ∷ []);
  }

  abbrev updating : Reply Value
  updating = record {
    status = 202;
    body = object (
        (text "updating", boolean true)
        ∷ (text "from", string host.git_commit)
        ∷ (text "log", string (text "/tmp/file-mover-update.log"))
        ∷ []);
  }

  abbrev update_command : Text
  update_command =
      let script = Option.get_or host.update_script (text "./scripts/update-file-mover.sh") in
      text "nohup '" ++ (script ++ text "' >/tmp/file-mover-update.log 2>&1 &")

  -- Handlers of the file system, of the server, and of the searches, on all of the state.
  abbrev pub on_fs : Reply Value × os.State → Service os.State Value → Handled
  on_fs (reply, s) st = (json reply, record st { server = record st.server { fs = s } })

  abbrev pub on_server : Reply Value × Server os.State → Service os.State Value → Handled
  on_server (reply, server) st = (json reply, record st { server = server })

  abbrev pub on_searches : Reply Value × Searches Value → Service os.State Value → Handled
  on_searches (reply, searches) st = (json reply, record st { searches = searches })

  abbrev pub update : Service os.State Value → Handled
  update st = on_fs (updating, host.spawn_shell update_command st.server.fs) st

  abbrev pub get_route : Text → Params → Service os.State Value → Handled
  get_route path params st =
      if path == text "/"
      then (page host.html, st)
      else if path == text "/api/roots"
      then (json roots_reply, st)
      else if path == text "/api/version"
      then (json version_reply, st)
      else if path == text "/api/status"
      then (json (handle_status st.server.jobs), st)
      else if path == text "/api/ls"
      then on_fs (handle_ls os env j spawn_sudo params st.server.fs) st
      else if path == text "/api/search"
      then (json (handle_search env j params st.searches), st)
      else (json not_found, st)

  abbrev put_route : Params → Frames → Service os.State Value → Handled
  put_route params frames st =
      let tmp = temp_path host.temp_dir host.pid (host.nanos st.server.fs) in
      on_fs (handle_put os env j spawn_sudo tmp params frames st.server.fs) st

  abbrev pub post_route : Text → Params → Request → Service os.State Value → Handled
  post_route path params req st =
      if path == text "/api/update"
      then update st
      else if path == text "/api/mkdir"
      then on_fs (handle_mkdir os env j spawn_sudo params st.server.fs) st
      else if path == text "/api/put"
      then put_route params req.frames st
      else if path == text "/api/move" || path == text "/api/copy"
      then on_server
          (handle_move_copy os env j spawn_sudo req.body (path == text "/api/move") st.server) st
      else if path == text "/api/rename"
      then on_fs (handle_rename os env j spawn_sudo req.body st.server.fs) st
      else if path == text "/api/delete"
      then on_server (handle_delete os env j spawn_sudo req.body st.server) st
      else if path == text "/api/search"
      then on_searches (handle_search_start env j req.body st.searches) st
      else (json not_found, st)

  -- The arms of the `match`, those of GET first.
  unfoldable pub route : Request → Service os.State Value → Handled
  unfolding handle_status
  route req st =
      let params = parse_query host.percent_decode (Option.get_or req.query []) in
      if req.method == text "GET"
      then get_route req.path params st
      else if req.method == text "POST"
      then post_route req.path params req st
      else (json not_found, st)

  -- `main`: the requests of all connections, in the order in which they are handled.
  unfoldable pub serve :
      List Request → Service os.State Value → List (Answer Value) × Service os.State Value
  unfolding route
  serve [] st = ([], st)
  serve (req ∷ reqs) st =
      let (answer, st') = route req st in
      let (answers, st'') = serve reqs st' in (answer ∷ answers, st'')
