-- ===== src/Server/Serving.antt =====
-- `serve` and `serve_conn` of src/server.rs as a state machine: what happens to the listener and its
-- connections comes as events, in any order in which tokio hands them out.
pub mod Strangers
use web_davs_zk.Common.{
  ℕ, Bool, true, false, Option, none, some, List, [], ◌∷◌, ◌++◌, ◌&&◌, ◌||◌, String, not, ltb, ◌==◌,
  nat_eq, list_eq, if◌then◌else◌,
}
use web_davs_zk.Common.Text.{Text}
use web_davs_zk.External.{Codec}
use web_davs_zk.Config.{Config}
use web_davs_zk.Auth.{Response}
use web_davs_zk.Server.{Request, auth_of, webhook_of, keepalive_options, handle_request}

pub data Event : Type 0 where
  -- `accept` returns a connection; the TLS handshake, if there is TLS, succeeds or fails
  accepted : ℕ → Bool → Event
  -- a request has arrived on a connection
  requested : ℕ → Request → Event
  closed : ℕ → Event
  -- SIGINT or SIGTERM, and the end of the 30 seconds after it
  signalled grace_over : Event

pub record Serving (World : Type 0) : Type 0 where
  pub world : World
  -- the loop over `accept` is running
  pub accepting : Bool
  -- the connections that are served
  pub connections : List ℕ
  -- the options that were set on accepted sockets
  pub options : List (ℕ × List (String × ℕ))
  pub answers : List (ℕ × Response)

abbrev pub listening : {World : Type 0} → World → Serving World
listening w = record { world = w; accepting = true; connections = []; options = []; answers = [] }

abbrev is_open : ℕ → List ℕ → Bool
is_open id [] = false
is_open id (c ∷ cs) = c == id || is_open id cs

abbrev without : ℕ → List ℕ → List ℕ
without id [] = []
without id (c ∷ cs) = let rest = without id cs in if c == id then rest else c ∷ rest

module _ {World : Type 0} (codec : Codec) (dav : Request → World → Response × World)
    (spawn : Text → World → World) (cfg : Config) where
  abbrev accept : ℕ → Bool → Serving World → Serving World
  accept id shaken s =
      let kept_alive =
        (if ltb 0 cfg.keepalive_secs
          then (id, keepalive_options cfg.keepalive_secs) ∷ []
          else []) in
      record s {
        options = s.options ++ kept_alive;
        connections = if cfg.no_tls || shaken then id ∷ s.connections else s.connections;
      }

  abbrev answer : ℕ → Response × World → Serving World → Serving World
  answer id (resp, w) s = record s { world = w; answers = s.answers ++ (id, resp) ∷ [] }

  -- The service of a connection, and the turns of the loops of `serve`.
  unfoldable pub react : Event → Serving World → Serving World
  react (accepted id shaken) s = if s.accepting then accept id shaken s else s
  react (requested id req) s =
      let answered =
        answer id (handle_request codec dav spawn (webhook_of cfg) (auth_of cfg) req s.world) s in
      if is_open id s.connections then answered else s
  react (closed id) s = record s { connections = without id s.connections }
  react signalled s = record s { accepting = false }
  react grace_over s = if s.accepting then s else record s { connections = [] }

  unfoldable pub serve : List Event → Serving World → Serving World
  unfolding react
  serve [] s = s
  serve (e ∷ events) s = serve events (react e s)
