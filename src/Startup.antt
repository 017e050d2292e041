-- ===== src/Startup.antt =====
-- src/main.rs and src/tls.rs: what happens before the server accepts connections.
pub mod Guard
pub mod Serves
use web_davs_zk.Common.{
  ℕ, Bool, true, false, Option, none, some, List, [], ◌∷◌, String, if◌then◌else◌, map, not, ◌==◌,
  list_eq, nat_eq,
}
use web_davs_zk.Common.Text.{Text, text}
use web_davs_zk.Common.Text.Trim.{trim}
use web_davs_zk.Common.Text.Split.{split}
use web_davs_zk.Config.{Config, ConfigError, validate}
use web_davs_zk.Server.{HandlerSettings, handler_settings}
use web_davs_zk.Io.{Os, IoError, Result, ok, err}
use web_davs_zk.Io.Paths.{parent, starts_with}

-- Why the program ends before it serves. `inside_root` names the file and its path.
pub data StartError : Type 0 where
  bad_config : ConfigError → StartError
  io_failed : IoError → StartError
  inside_root : String → Text → StartError
  certificate_failed : StartError

pub data Outcome {ℓ} (A : Type ℓ) : Type ℓ where
  done : A → Outcome A
  failed : StartError → Outcome A

abbrev pub from_io {ℓ} : {A : Type ℓ} → Result A → Outcome A
from_io (ok a) = done a
from_io (err e) = failed (io_failed e)

abbrev pub from_option {ℓ} : {A : Type ℓ} → StartError → Option A → Outcome A
from_option e none = failed e
from_option e (some a) = done a

abbrev keep_full : List Text → List Text
keep_full [] = []
keep_full (t ∷ ts) = let rest = keep_full ts in if t == [] then rest else t ∷ rest

abbrev pub some_certs {ℓ} : {A : Type ℓ} → List A → Outcome (Unit {0})
some_certs [] = failed certificate_failed
some_certs (c ∷ cs) = done tt

-- The trimmed, non-empty parts between the commas of `--cert-san`.
unfoldable pub sans_of : Text → List Text
sans_of cert_san = keep_full (map trim (split b',' cert_san))

-- What the `rcgen`, `rustls` and `rustls_pemfile` crates do for src/tls.rs.
pub record Tls : Type 1 where
  pub Cert : Type 0
  pub Key : Type 0
  pub Server : Type 0
  pub generate : List Text → Option (Text × Text)
  pub parse_certs : Text → Option (List Cert)
  pub parse_key : Text → Option (Option Key)
  pub server_config : List Cert → Key → Option Server

-- What `main` comes to: it has written a certificate, or it serves, with TLS or without.
pub data Started (Server : Type 0) : Type 0 where
  generated : Started Server
  serves : HandlerSettings → Option Server → Started Server

module _ (os : Os) where
  -- A step of the start may fail and change the file system.
  abbrev pub Run : Type 0 → Type 0
  Run A = os.State → Outcome A × os.State

  abbrev continue : {A B : Type 0} → Outcome A → (A → Run B) → Run B
  continue (done a) f s = f a s
  continue (failed e) f s = (failed e, s)

  infixl 5 ◌>>=◌ ◌>>◌
  abbrev pub ◌>>=◌ : {A B : Type 0} → Run A → (A → Run B) → Run B
  ◌>>=◌ m f s = let (r, s') = m s in continue r f s'

  abbrev pub ◌>>◌ : {A B : Type 0} → Run A → Run B → Run B
  m >> k = m >>= λ _. k

  abbrev pub give : {A : Type 0} → Outcome A → Run A
  give r s = (r, s)

  -- A call that reads the file system, and one that changes it.
  abbrev pub ask : {A : Type 0} → (os.State → Result A) → Run A
  ask f s = (from_io (f s), s)

  abbrev pub act : {A : Type 0} → (os.State → Result A × os.State) → Run A
  act f s = let (r, s') = f s in (from_io r, s')

  abbrev canonical_parent : Option Text → Text → os.State → Text
  canonical_parent none path s = path
  canonical_parent (some dir) path s = elim (os.canonicalize dir s) [
    | ok canon ↦ canon
    | err _ ↦ path
  ]

  -- The file itself, or its parent if the file does not exist yet, or the path as it stands.
  unfoldable pub resolved : Text → os.State → Text
  resolved path s = elim (os.canonicalize path s) [
    | ok canon ↦ canon
    | err _ ↦ canonical_parent (parent path) path s
  ]

  -- One turn of the loop over the certificate and the key.
  unfoldable pub check_outside : Text → String → Text → Run (Unit {0})
  check_outside root kind path s =
      (if starts_with root (resolved path s) then failed (inside_root kind path) else done tt, s)

  unfoldable pub check_both : Config → Run (Unit {0})
  check_both cfg = do
    root ← ask (os.canonicalize cfg.root)
    check_outside root "certificate" cfg.cert
    check_outside root "private key" cfg.key

  unfoldable pub guard_certs_outside_root : Config → Run (Unit {0})
  unfolding check_both check_outside
  guard_certs_outside_root cfg = if cfg.no_tls then give (done tt) else check_both cfg

  abbrev create_parent : Text → Run (Unit {0})
  create_parent path = elim (parent path) [
    | none ↦ give (done tt)
    | some dir ↦ act (os.create_dir_all dir)
  ]

  module _ (tls : Tls) where
    unfoldable pub generate_self_signed : Config → Run (Unit {0})
    unfolding sans_of
    generate_self_signed cfg = do
      (cert_pem, key_pem) ←
          give (from_option certificate_failed (tls.generate (sans_of cfg.cert_san)))
      create_parent cfg.cert
      create_parent cfg.key
      act (os.write_file cfg.cert cert_pem)
      act (os.write_file cfg.key key_pem)
      act (os.set_mode cfg.key 0o600)

    unfoldable pub load_identity : Text → Text → Run (List tls.Cert × tls.Key)
    load_identity cert key = do
      cert_pem ← ask (os.read_file cert)
      certs ← give (from_option certificate_failed (tls.parse_certs cert_pem))
      give (some_certs certs)
      key_pem ← ask (os.read_file key)
      found ← give (from_option certificate_failed (tls.parse_key key_pem))
      k ← give (from_option certificate_failed found)
      give (done (certs, k))

    unfoldable pub build_server_config : Text → Text → Run tls.Server
    build_server_config cert key = do
      (certs, k) ← load_identity cert key
      give (from_option certificate_failed (tls.server_config certs k))

    abbrev tls_config : Config → Run (Option tls.Server)
    tls_config cfg =
        if cfg.no_tls
        then give (done none)
        else (do server ← build_server_config cfg.cert cfg.key; give (done (some server)))

    unfoldable pub serve_checked : Config → Run (Started tls.Server)
    serve_checked cfg = do
      act (os.create_dir_all cfg.root)
      server ← tls_config cfg
      give (done (serves (handler_settings cfg) server))

    abbrev checked : Option ConfigError → Outcome (Unit {0})
    checked none = done tt
    checked (some e) = failed (bad_config e)

    -- `main`, up to `serve`. `build_handler` creates the root once more.
    unfoldable pub main : Config → Run (Started tls.Server)
    unfolding serve_checked
    main cfg = do
      give (checked (validate cfg))
      act (os.create_dir_all cfg.root)
      guard_certs_outside_root cfg
      if cfg.gen_cert
          then (do generate_self_signed cfg; give (done generated))
          else serve_checked cfg
