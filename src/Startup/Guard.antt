-- ===== src/Startup/Guard.antt =====
-- The guard of src/tls.rs over the places of the certificate and the key.
use web_davs_zk.Common.{◌≡◌, ◌↔◌, ap, sym, ◌∙◌, inl, inr, true, false, Bool-cases, some, arith}
use web_davs_zk.Common.Text.{Text}
use web_davs_zk.Config.{Config}
use web_davs_zk.Io.{Os, IoError, ok, err}
use web_davs_zk.Io.Paths.{is_rooted, parent, strip_prefix, starts_with}
use web_davs_zk.Startup.{done, resolved, check_outside, check_both, guard_certs_outside_root}

module _ (os : Os) where
  open os use {State, canonicalize}

  abbrev IsOutside : Text → Text → State → Type 0
  IsOutside root path s = starts_with root (resolved os path s) ≡ false

  pub check_both-done :
      (cfg : Config) (s : State)
      → (check_both os cfg s).0 ≡ done tt
      → (root : Text) × (canonicalize cfg.root s ≡ ok root)
        × IsOutside root cfg.cert s
        × IsOutside root cfg.key s
  unfolding check_both check_outside
  check_both-done cfg s h = grind arith

  done-check_both :
      (cfg : Config) (s : State) (root : Text)
      → canonicalize cfg.root s ≡ ok root
      → IsOutside root cfg.cert s
      → IsOutside root cfg.key s
      → check_both os cfg s ≡ (done tt, s)
  unfolding check_both check_outside
  done-check_both cfg s root e c k = ground arith

  pub with_tls :
      (cfg : Config) (s : State)
      → cfg.no_tls ≡ false
      → guard_certs_outside_root os cfg s ≡ check_both os cfg s
  unfolding guard_certs_outside_root
  with_tls cfg s tls = rw tls

  without_tls :
      (cfg : Config) (s : State)
      → cfg.no_tls ≡ true
      → guard_certs_outside_root os cfg s ≡ (done tt, s)
  unfolding guard_certs_outside_root
  without_tls cfg s off = rw off

  unresolved :
      (root path dir : Text) (s : State) (e : IoError)
      → is_rooted root ≡ true
      → is_rooted path ≡ false
      → parent path ≡ some dir
      → canonicalize path s ≡ err e
      → canonicalize dir s ≡ err e
      → IsOutside root path s
  unfolding resolved starts_with strip_prefix
  unresolved root path dir s e rr rp p c d = ground arith

  -- The guard lets the program start with TLS only if the root can be resolved, and neither what
  -- the certificate's path resolves to nor what the key's path resolves to lies in it; it changes
  -- nothing.
  pub guard_certs_outside_root-done :
      (cfg : Config) (s : State)
      → cfg.no_tls ≡ false
      → (guard_certs_outside_root os cfg s ≡ (done tt, s)) ↔ (
          (root : Text) × (canonicalize cfg.root s ≡ ok root)
          × (starts_with root (resolved os cfg.cert s) ≡ false)
          × (starts_with root (resolved os cfg.key s) ≡ false))
  guard_certs_outside_root-done cfg s tls = (
    λ h. check_both-done cfg s (ap (λ p. p.0) (sym (with_tls cfg s tls) ∙ h)),
    λ (root, e, c, k). with_tls cfg s tls ∙ done-check_both cfg s root e c k,
  )

  -- The guard does not see a certificate and a key that are still to be written, under relative
  -- paths in a directory that is still to be made: where neither the paths nor their parents can be
  -- resolved it lets the program start, even if the working directory lies in the root.
  pub guard_certs_outside_root-relative :
      (cfg : Config) (s : State) (root cert_dir key_dir : Text) (e : IoError)
      → canonicalize cfg.root s ≡ ok root
      → is_rooted root ≡ true
      → is_rooted cfg.cert ≡ false
      → is_rooted cfg.key ≡ false
      → parent cfg.cert ≡ some cert_dir
      → parent cfg.key ≡ some key_dir
      → canonicalize cfg.cert s ≡ err e
      → canonicalize cfg.key s ≡ err e
      → canonicalize cert_dir s ≡ err e
      → canonicalize key_dir s ≡ err e
      → guard_certs_outside_root os cfg s ≡ (done tt, s)
  guard_certs_outside_root-relative cfg s root cert_dir key_dir e r rr rc rk pc pk c k cd kd =
      elim (Bool-cases cfg.no_tls) [
        | inl off ↦ without_tls cfg s off
        | inr tls ↦ (guard_certs_outside_root-done cfg s tls).1 (
          root,
          r,
          unresolved root cfg.cert cert_dir s e rr rc pc c cd,
          unresolved root cfg.key key_dir s e rr rk pk k kd,
        )
      ]
