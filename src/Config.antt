-- ===== src/Config.antt =====
-- src/config.rs: the settings, and their check.
use web_davs_zk.Common.{ℕ, Bool, true, false, Option, none, some, ◌&&◌, if◌then◌else◌, not}
use web_davs_zk.Common.Text.{Text, text}

pub record Config : Type 0 where
  pub bind : Text
  pub root : Text
  pub prefix : Text
  pub cert : Text
  pub key : Text
  pub no_tls : Bool
  pub gen_cert : Bool
  pub cert_san : Text
  pub auth_user : Option Text
  pub auth_pass : Option Text
  pub principal : Text
  pub create_parents : Bool
  pub atomic_writes : Bool
  pub fsync : Bool
  pub keepalive_secs : ℕ
  pub log_file : Option Text
  pub target_ip : Option Text
  pub update_secret : Option Text
  pub update_cmd : Text
  pub verbose : Bool

-- What clap takes where neither an option nor an environment variable is given.
abbrev pub default_config : Config
default_config = record {
  bind = text "0.0.0.0:8443";
  root = text "/srv/webdav";
  prefix = text "";
  cert = text "certs/server.crt";
  key = text "certs/server.key";
  no_tls = false;
  gen_cert = false;
  cert_san = text "localhost,0.0.0.0,::1";
  auth_user = none;
  auth_pass = none;
  principal = text "nzk-webdavs";
  create_parents = true;
  atomic_writes = true;
  fsync = false;
  keepalive_secs = 60;
  log_file = none;
  target_ip = none;
  update_secret = none;
  update_cmd = text "scripts/update.sh";
  verbose = false;
}

pub data ConfigError : Type 0 where
  auth_half_set gen_cert_without_tls : ConfigError

abbrev pub is_some {ℓ} : {A : Type ℓ} → Option A → Bool
is_some none = false
is_some (some _) = true

abbrev differ : Bool → Bool → Bool
differ true b = not b
differ false b = b

-- `validate`; `none` is `Ok(())`
unfoldable pub validate : Config → Option ConfigError
validate cfg =
    if differ (is_some cfg.auth_user) (is_some cfg.auth_pass)
    then some auth_half_set
    else if cfg.no_tls && cfg.gen_cert
    then some gen_cert_without_tls
    else none
