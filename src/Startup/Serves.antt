-- ===== src/Startup/Serves.antt =====
-- When `main` of src/main.rs comes to serve.
use web_davs_zk.Common.{
  ◌≡◌, ◌↔◌, ◌⊎◌, refl, ap, ◌∙◌, inl, inr, Bool, true, false, Bool-cases, if◌then◌else◌, Option,
  none, some,
}
use web_davs_zk.Common.Text.{Text}
use web_davs_zk.Config.{Config, ConfigError, validate}
use web_davs_zk.Io.{Os, ok}
use web_davs_zk.Io.Paths.{starts_with}
use web_davs_zk.Server.{HandlerSettings, handler_settings, auth_of}
use web_davs_zk.Server.Access.{auth_of-validate}
use web_davs_zk.Startup.{
  Outcome, done, failed, Tls, Started, generated, serves, Run, continue, ◌>>=◌, ◌>>◌, give, act,
  resolved, guard_certs_outside_root, build_server_config, tls_config, serve_checked, checked, main,
}
use web_davs_zk.Startup.Guard.{check_both-done, with_tls}

module _ (os : Os) where
  open os use {State}

  continue-done :
      {A B : Type 0} (r : Outcome A) (f : A → Run os B) (s : State) (b : B)
      → (continue os r f s).0 ≡ done b
      → (a : A) × (r ≡ done a) × ((f a s).0 ≡ done b)
  continue-done (done a) f s b e = (a, refl, e)
  continue-done (failed x) f s b e = cc

  -- A chain of steps is done only if each of them is.
  bind-done :
      {A B : Type 0} (m : Run os A) (f : A → Run os B) (s : State) (b : B)
      → (◌>>=◌ os m f s).0 ≡ done b
      → (a : A) × ((m s).0 ≡ done a) × ((f a (m s).1).0 ≡ done b)
  bind-done m f s b e = continue-done (m s).0 f (m s).1 b e

  module _ (tls : Tls) where
    -- What the settings say of TLS, and what the server has.
    abbrev pub Guarded : Config → Option tls.Server → State → Type 0
    Guarded cfg server s =
        ((cfg.no_tls ≡ true) × (server ≡ none))
        ⊎ ((cfg.no_tls ≡ false)
            × ((identity : tls.Server) × (server ≡ some identity))
            × ((root : Text) × (os.canonicalize cfg.root s ≡ ok root)
                × (starts_with root (resolved os cfg.cert s) ≡ false)
                × (starts_with root (resolved os cfg.key s) ≡ false)))

    checked-done : (r : Option ConfigError) (u : Unit {0}) → checked os tls r ≡ done u → r ≡ none
    checked-done none u e = refl
    checked-done (some x) u e = cc

    tls_config-done :
        (cfg : Config) (s : State) (server : Option tls.Server)
        → (tls_config os tls cfg s).0 ≡ done server
        → ((cfg.no_tls ≡ true) × (server ≡ none))
          ⊎ ((cfg.no_tls ≡ false) × ((identity : tls.Server) × (server ≡ some identity)))
    tls_config-done cfg s server e = elim (Bool-cases cfg.no_tls) [
      | inl plain ↦ inl (plain, cc (rw plain at e))
      | inr secure ↦
          let (identity, made, given) =
            bind-done (build_server_config os tls cfg.cert cfg.key) _ s server (rw secure at e) in
          inr (secure, (identity, cc))
    ]

    guard-Guarded :
        (cfg : Config) (s s' : State) (u : Unit {0}) (server : Option tls.Server)
        → (guard_certs_outside_root os cfg s).0 ≡ done u
        → (tls_config os tls cfg s').0 ≡ done server
        → Guarded cfg server s
    guard-Guarded cfg s s' u server passed made = elim (tls_config-done cfg s' server made) [
      | inl plain ↦ inl plain
      | inr (secure, identity) ↦
          inr (secure, identity, check_both-done os cfg s (rw (with_tls os cfg s secure) at passed))
    ]

    serve_checked-done :
        (cfg : Config) (s : State) (settings : HandlerSettings) (server : Option tls.Server)
        → (serve_checked os tls cfg s).0 ≡ done (serves settings server)
        → (settings ≡ handler_settings cfg)
          × ((s' : State) × ((tls_config os tls cfg s').0 ≡ done server))
    unfolding serve_checked
    serve_checked-done cfg s settings server e =
        let (_, _, e₁) = bind-done (act os (os.create_dir_all cfg.root)) _ s _ e in
        let (server', made, e₂) = bind-done (tls_config os tls cfg) _ _ _ e₁ in
        let same : server' ≡ server = cc in
        (cc, ((os.create_dir_all cfg.root s).1, made ∙ ap done same))

    -- What `main` does in the end, when no certificate is asked for or one is.
    chosen :
        (b : Bool) (make : Run os (Unit {0})) (k : Run os (Started tls.Server)) (s : State)
        (settings : HandlerSettings) (server : Option tls.Server)
        → ((if b then (◌>>◌ os make (give os (done generated))) else k) s).0
          ≡ done (serves settings server)
        → (k s).0 ≡ done (serves settings server)
    chosen true make k s settings server e = let (_, _, e') = bind-done make _ s _ e in cc
    chosen false make k s settings server e = e

    -- If `main` comes to serve, then the settings are valid and the handler's settings are those
    -- they ask for. Without TLS it serves only if they ask for that; with TLS only if the root can
    -- be resolved, and neither what the certificate's path resolves to nor what the key's path
    -- resolves to lies in it, as the disk is once the root is made. It serves without
    -- authentication exactly if the settings have neither a user nor a password.
    pub main-serves :
        (cfg : Config) (s : State) (settings : HandlerSettings) (server : Option tls.Server)
        → (main os tls cfg s).0 ≡ done (serves settings server)
        → (validate cfg ≡ none)
          × (settings ≡ handler_settings cfg)
          × Guarded cfg server (os.create_dir_all cfg.root s).1
          × ((auth_of cfg ≡ none) ↔ ((cfg.auth_user ≡ none) × (cfg.auth_pass ≡ none)))
    unfolding main
    main-serves cfg s settings server e =
        let (u, valid, e₁) = bind-done (give os (checked os tls (validate cfg))) _ s _ e in
        let (_, _, e₂) = bind-done (act os (os.create_dir_all cfg.root)) _ s _ e₁ in
        let (v, passed, e₃) =
          bind-done (guard_certs_outside_root os cfg) _ (os.create_dir_all cfg.root s).1 _ e₂ in
        let valid' = checked-done (validate cfg) u valid in
        let (same, (s', made)) =
          serve_checked-done cfg _ settings server (chosen cfg.gen_cert _ _ _ settings server e₃) in
        (valid', same, guard-Guarded cfg _ s' v server passed made, auth_of-validate cfg valid')
