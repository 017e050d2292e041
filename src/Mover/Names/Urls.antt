-- ===== src/Mover/Names/Urls.antt =====
-- Where the URLs of the mounts lead in src/bin/file-mover.rs.
use mathlib.Core.List.{
  append_assoc, reverse, reverse_aux, reverse-append, reverse-cons, reverse-reverse,
}
use mathlib.Core.Option
use web_davs_zk.Common.{
  ℕ, ◌≡◌, ap, ◌∙◌, refl, false, Option, none, some, [], ◌∷◌, ◌++◌, arith, take, take-length-append,
  drop-length-append, nat_eq, list_eq,
}
use web_davs_zk.Common.Text.{Text, text}
use web_davs_zk.Common.Text.Split.{Lacks, position, position-append, split, strip_prefix}
use web_davs_zk.Common.Text.Trim.{trim_start_matches, skip_while}
use web_davs_zk.Io.Paths.{is_rooted, join}
use web_davs_zk.Mover.Names.{
  Env, webdav_url_to_path, root_for, below_root, after_scheme, without_scheme, authority_and_path,
  after_last_at, host_port,
}

Lacks-append : (c : ℕ) (a b : Text) → Lacks c a → Lacks c b → Lacks c (a ++ b)
Lacks-append c [] b h k = k
Lacks-append c (x ∷ a) b h k = (h.0, Lacks-append c a b h.1 k)

Lacks-reverse_aux : (c : ℕ) (a b : Text) → Lacks c a → Lacks c b → Lacks c (reverse_aux a b)
Lacks-reverse_aux c [] b h k = k
Lacks-reverse_aux c (x ∷ a) b h k = Lacks-reverse_aux c a (x ∷ b) h.1 (h.0, k)

position-none : (c : ℕ) (a : Text) → Lacks c a → position c a ≡ none
unfolding position
position-none c [] h = refl
position-none c (x ∷ a) h = ground (arith, position-none c a h.1)

split-Lacks : (c : ℕ) (a : Text) → Lacks c a → split c a ≡ a ∷ []
unfolding split
split-Lacks c [] h = refl
split-Lacks c (x ∷ a) h = ground (arith, split-Lacks c a h.1)

split-append : (c : ℕ) (a b : Text) → Lacks c a → split c (a ++ c ∷ b) ≡ a ∷ split c b
unfolding split
split-append c [] b h = ground arith
split-append c (x ∷ a) b h = ground (arith, split-append c a b h.1)

-- `after_last_at` of a text and its reverse.
abbrev cut_at : Text → Text → Text
cut_at t r = elim (position b'@' r) [ none ↦ t | some i ↦ reverse (take i r) ]

after_last_at-none : (a : Text) → Lacks b'@' a → after_last_at a ≡ a
after_last_at-none a h =
    rw (position-none b'@' (reverse a) (Lacks-reverse_aux b'@' a [] h tt), after_last_at) refl

reverse-at : (user a : Text) → reverse (user ++ b'@' ∷ a) ≡ reverse a ++ b'@' ∷ reverse user
reverse-at user a =
    reverse-append user (b'@' ∷ a)
    ∙ ap (λ t. t ++ reverse user) (reverse-cons b'@' a)
    ∙ append_assoc (reverse a) (b'@' ∷ []) (reverse user)

after_last_at-append : (user a : Text) → Lacks b'@' a → after_last_at (user ++ b'@' ∷ a) ≡ a
after_last_at-append user a h =
    ap (cut_at (user ++ b'@' ∷ a)) (reverse-at user a)
    ∙ rw
        (position-append b'@' (reverse a) (reverse user) (Lacks-reverse_aux b'@' a [] h tt), cut_at)
        (ap reverse (take-length-append (reverse a) (b'@' ∷ reverse user)) ∙ reverse-reverse a)

authority_and_path-append :
    (a path : Text) → Lacks b'/' a → authority_and_path (a ++ b'/' ∷ path) ≡ (a, b'/' ∷ path)
authority_and_path-append a path h =
    rw (position-append b'/' a path h, authority_and_path)
      (rw (take-length-append a (b'/' ∷ path), drop-length-append a (b'/' ∷ path)) refl)

-- A host or a port: it contains no character that ends it.
abbrev pub IsPlain : Text → Type 0
IsPlain t = Lacks b'/' t × Lacks b':' t × Lacks b'@' t

-- `host:port/path`
abbrev pub address : Text → Text → Text → Text
address host port path = (host ++ b':' ∷ port) ++ b'/' ∷ path

-- The path below the mount of the host and the port.
abbrev pub place : Env → Text → Text → Text → Option Text
place env host port path =
    Option.map (λ root. join root (trim_start_matches b'/' path))
      (root_for env (host ++ b':' ∷ port))

module _ (env : Env) (host port path : Text) (h : IsPlain host) (p : IsPlain port)
    (q : Lacks b'@' path) where
  address-Lacks : Lacks b'@' (address host port path)
  address-Lacks =
      Lacks-append b'@' (host ++ b':' ∷ port) (b'/' ∷ path)
        (Lacks-append b'@' host (b':' ∷ port) h.2 ((λ e. omega (arith, e)), p.2))
        ((λ e. omega (arith, e)), q)

  host_port-append : host_port env (host ++ b':' ∷ port) ≡ host ++ b':' ∷ port
  host_port-append = rw (host_port, split-append b':' host port h.1, split-Lacks b':' port p.1) refl

  mapped :
      (rest : Text)
      → after_last_at rest ≡ address host port path
      → after_scheme env rest ≡ below_root env (root_for env (host ++ b':' ∷ port)) (b'/' ∷ path)
  unfolding after_scheme
  mapped rest e = rw (e) (
      rw
        (authority_and_path-append (host ++ b':' ∷ port) path
          (Lacks-append b'/' host (b':' ∷ port) h.0 ((λ e. omega (arith, e)), p.0)))
        (ap (λ t. below_root env (root_for env t) (b'/' ∷ path)) host_port-append))

  below_root-place :
      (o : Option Text)
      → below_root env o (b'/' ∷ path)
        ≡ Option.map (λ root. join root (trim_start_matches b'/' path)) o
  unfolding below_root trim_start_matches skip_while
  below_root-place none = refl
  below_root-place (some root) = refl

  abbrev of_stripped : Option Text → Option Text
  of_stripped none = none
  of_stripped (some rest) = after_scheme env rest

  of_rest :
      (url rest : Text)
      → without_scheme url ≡ some rest
      → after_last_at rest ≡ address host port path
      → webdav_url_to_path env url ≡ place env host port path
  unfolding webdav_url_to_path
  of_rest url rest e found = ap of_stripped e ∙ mapped rest found ∙ below_root-place _

plain_scheme : (rest : Text) → without_scheme (text "webdav://" ++ rest) ≡ some rest
unfolding strip_prefix
plain_scheme rest = refl

secure_scheme : (rest : Text) → without_scheme (text "webdavs://" ++ rest) ≡ some rest
unfolding strip_prefix
secure_scheme rest = refl

trimmed : (t : Text) → is_rooted (trim_start_matches b'/' t) ≡ false
unfolding trim_start_matches skip_while
trimmed [] = refl
trimmed (c ∷ t) = ground (arith, trimmed t)

-- What a URL `webdav://host:port/path` stands for, where there is no `@` in it: the path, without
-- its slashes in front and with its `..` as they stand, joined to the mount that `root_for` gives
-- for the host and the port, or nothing where it gives none. What is joined never begins with a
-- slash, so it does not take the place of the mount. A URL `webdavs://` stands for the same; so does
-- each with any text and an `@` before the host, be it a user or not.
pub webdav_url_to_path-address :
    (env : Env) (user host port path : Text)
    → IsPlain host
    → IsPlain port
    → Lacks b'@' path
    → let at = address host port path in
      let led = place env host port path in
      (is_rooted (trim_start_matches b'/' path) ≡ false)
      × (webdav_url_to_path env (text "webdav://" ++ at) ≡ led)
      × (webdav_url_to_path env (text "webdavs://" ++ at) ≡ led)
      × (webdav_url_to_path env (text "webdav://" ++ (user ++ b'@' ∷ at)) ≡ led)
      × (webdav_url_to_path env (text "webdavs://" ++ (user ++ b'@' ∷ at)) ≡ led)
webdav_url_to_path-address env user host port path h p q =
    let at = address host port path in
    let clean = address-Lacks env host port path h p q in
    let named = after_last_at-append user at clean in
    let bare = after_last_at-none at clean in
    (
      trimmed path,
      of_rest env host port path h p q _ at (plain_scheme at) bare,
      of_rest env host port path h p q _ at (secure_scheme at) bare,
      of_rest env host port path h p q _ (user ++ b'@' ∷ at) (plain_scheme (user ++ b'@' ∷ at))
          named,
      of_rest env host port path h p q _ (user ++ b'@' ∷ at) (secure_scheme (user ++ b'@' ∷ at))
          named,
    )
