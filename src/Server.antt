-- ===== src/Server.antt =====
-- src/server.rs: what is served to whom. The DAV handler, `info!` lines and sockets are outside.
pub mod Access
pub mod Prefix
pub mod Serving
use web_davs_zk.Common.{
  ℕ, ◌-◌, ◌*◌, ◌^◌, min, Bool, true, false, Option, none, some, List, [], ◌∷◌, ◌++◌, ◌&&◌, not,
  String, ◌==◌, nat_eq, list_eq, list_beq, ltb, if◌then◌else◌,
}
use mathlib.Core.Option
use web_davs_zk.Common.Text.{Text, text}
use web_davs_zk.Common.Text.Trim.{trim, trim_end_matches}
use web_davs_zk.Common.Text.Split.{starts_with}
use web_davs_zk.External.{Codec}
use web_davs_zk.Config.{Config}
use web_davs_zk.Auth.{BasicAuth, Headers, Response, challenge, is_authorized}

pub record Request : Type 0 where
  pub method : Text
  pub path : Text
  pub headers : Headers

-- The secret and the command of the update webhook.
pub record Webhook : Type 0 where
  pub secret : Text
  pub command : Text

abbrev pub webhook_path : Text
webhook_path = text "/.nzk-webdavs-update"

abbrev pub empty_response : ℕ → Response
empty_response status = record { status = status; headers = []; body = [] }

-- `build_handler`: the prefix that is handed to `strip_prefix`, if any.
unfoldable pub url_prefix : Text → Option Text
url_prefix prefix =
    let trimmed = trim prefix in
    let bare = trim_end_matches b'/' trimmed in
    if trimmed == [] then none else some (if starts_with (text "/") bare then bare else b'/' ∷ bare)

-- The settings of the handler that `build_handler` builds.
pub record HandlerSettings : Type 0 where
  pub root : Text
  pub create_parents : Bool
  pub atomic_writes : Bool
  pub fsync : Bool
  pub principal : Text
  pub autoindex : Bool
  pub hide_symlinks : Bool
  pub read_buf_size : ℕ
  pub strip_prefix : Option Text

unfoldable pub handler_settings : Config → HandlerSettings
handler_settings cfg = record {
  root = cfg.root;
  create_parents = cfg.create_parents;
  atomic_writes = cfg.atomic_writes;
  fsync = cfg.fsync;
  principal = cfg.principal;
  autoindex = true;
  hide_symlinks = false;
  read_buf_size = 1024 * 1024;
  strip_prefix = url_prefix cfg.prefix;
}

-- The `match` on the credentials in `serve`.
abbrev auth_from : Option Text → Option Text → Option BasicAuth
auth_from (some user) (some pass) =
    some (record { user = user; pass = pass; realm = text "nzk-webdavs" })
auth_from _ _ = none

unfoldable pub auth_of : Config → Option BasicAuth
auth_of cfg = auth_from cfg.auth_user cfg.auth_pass

unfoldable pub webhook_of : Config → Option Webhook
webhook_of cfg =
    Option.map (λ secret. record { secret = secret; command = cfg.update_cmd }) cfg.update_secret

-- The address that the log shows for a connection to `local`.
unfoldable pub target_of : Config → Text → Text
target_of cfg local = elim cfg.target_ip [ none ↦ local | some ip ↦ if ip == [] then local else ip ]

-- `set_tcp_keepalive` on Linux: each option with its value, in order; `serve` calls it if the
-- setting is not 0.
unfoldable pub keepalive_options : ℕ → List (String × ℕ)
keepalive_options idle_secs =
    if ltb 0 idle_secs
    then ("SO_KEEPALIVE", 1)
      ∷ ("TCP_KEEPIDLE", min idle_secs (2 ^ 31 - 1))
      ∷ ("TCP_KEEPINTVL", 75)
      ∷ ("TCP_KEEPCNT", 9)
      ∷ []
    else []

-- The command line that `sh -c` runs.
unfoldable pub update_command : Text → Text
update_command cmd = text "nohup '" ++ (cmd ++ text "' >/tmp/nzk-webdavs-update.log 2>&1 &")

-- `World` is the state that the DAV handler and the update command change.
module _ {World : Type 0} (codec : Codec) (dav : Request → World → Response × World)
    (spawn : Text → World → World) where
  handle_webhook : Option Webhook → Request → World → Response × World
  handle_webhook none req w = (empty_response 404, w)
  handle_webhook (some hook) req w =
      let token = Option.get_or (req.headers "x-nzk-update-token") [] in
      if codec.ct_eq token hook.secret
      then (empty_response 202, spawn (update_command hook.command) w)
      else (empty_response 403, w)

  handle_guarded : Option BasicAuth → Request → World → Response × World
  handle_guarded none req w = dav req w
  handle_guarded (some auth) req w =
      if is_authorized codec auth req.headers then dav req w else (challenge auth, w)

  -- The service of `serve_conn`.
  unfoldable pub handle_request :
      Option Webhook → Option BasicAuth → Request → World → Response × World
  unfolding handle_webhook handle_guarded update_command
  handle_request webhook auth req w =
      if req.method == text "POST" && req.path == webhook_path
      then handle_webhook webhook req w
      else handle_guarded auth req w
