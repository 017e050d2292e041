-- ===== src/Examples/Starting.antt =====
-- The theorem on the start of src/main.rs at a concrete input.
use web_davs_zk.Common.{ℕ, none, some, [], ◌∷◌, ◌≡◌, ◌↔◌, refl, list_beq, nat_eq, list_eq}
use web_davs_zk.Config.{default_config, validate}
use web_davs_zk.Io.{Os, ok}
use web_davs_zk.Io.Paths.{starts_with, strip_prefix, parts_of, is_rooted}
use web_davs_zk.Server.{handler_settings, auth_of}
use web_davs_zk.Startup.{
  Tls, serves, done, main, resolved, check_both, check_outside, guard_certs_outside_root,
  serve_checked, build_server_config, load_identity,
}
use web_davs_zk.Startup.Serves.{Guarded, main-serves}
use web_davs_zk.Examples.{disk}

-- Every file can be read, and is empty.
abbrev readable : Os
readable = record disk { read_file = λ p s. ok [] }

abbrev plain_tls : Tls
plain_tls = record {
  Cert = ℕ;
  Key = ℕ;
  Server = ℕ;
  generate = λ names. none;
  parse_certs = λ pem. some (1 ∷ []);
  parse_key = λ pem. some (some 2);
  server_config = λ certs key. some 3;
}

comes_to_serve :
    (main readable plain_tls default_config 0).0
    ≡ done (serves (handler_settings default_config) (some 3))
unfolding main validate guard_certs_outside_root check_both check_outside serve_checked
    build_server_config load_identity starts_with strip_prefix parts_of is_rooted resolved
    handler_settings list_beq
comes_to_serve = refl

main-serves_example :
    (validate default_config ≡ none)
    × (handler_settings default_config ≡ handler_settings default_config)
    × Guarded readable plain_tls default_config (some 3) 1
    × ((auth_of default_config ≡ none)
        ↔ ((default_config.auth_user ≡ none) × (default_config.auth_pass ≡ none)))
main-serves_example =
    main-serves readable plain_tls default_config 0 (handler_settings default_config) (some 3)
      comes_to_serve
