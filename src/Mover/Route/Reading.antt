-- ===== src/Mover/Route/Reading.antt =====
-- Which requests to src/bin/file-mover.rs only read.
use mathlib.Core.Option
use web_davs_zk.Common.{
  ◌≡◌, refl, arith, inl, inr, true, Bool-cases, none, List, [], ◌==◌, nat_eq, list_eq, list_beq,
  list_beq_iff,
}
use web_davs_zk.Common.Text.{Text, text}
use web_davs_zk.Io.{Os, Result, ok, err, is_permission_denied}
use web_davs_zk.Json.{Serde}
use web_davs_zk.Mover.Names.{Env, Params, param, resolve_path, parse_query}
use web_davs_zk.Mover.Requests.{SpawnSudo}
use web_davs_zk.Mover.Listing.{list_entries, after_listing, asked_path, handle_ls}
use web_davs_zk.Mover.Route.{Request, Host, Service, get_route, route}

module _ (os : Os) (env : Env) (j : Serde) (spawn_sudo : SpawnSudo os) where
  after_listing-reads :
      (p : Text) (found : Result (List j.Value)) (s : os.State)
      → (after_listing os env j spawn_sudo [] p found s).1 ≡ s
  unfolding list_beq
  after_listing-reads p (ok found) s = refl
  after_listing-reads p (err e) s = elim (Bool-cases (is_permission_denied e)) [
    | inl denied ↦ rw denied refl
    | inr other ↦ rw other refl
  ]

  handle_ls-reads :
      (params : Params) (s : os.State)
      → param (text "sudopass") params ≡ none
      → (handle_ls os env j spawn_sudo params s).1 ≡ s
  unfolding handle_ls
  handle_ls-reads params s plain =
      let p = resolve_path env (asked_path os env j spawn_sudo (param (text "p") params)) in
      rw (plain, handle_ls) (after_listing-reads p (list_entries os env j spawn_sudo p s) s)

  module _ (host : Host os.State) where
    get_route-reads :
        (path : Text) (params : Params) (st : Service os.State j.Value)
        → param (text "sudopass") params ≡ none
        → (get_route os env j spawn_sudo host path params st).1 ≡ st
    get_route-reads path params st plain = ground (arith, handle_ls-reads params st.server.fs plain)

    -- A GET request without a password for sudo changes nothing: neither files nor the map of jobs,
    -- that of searches, or what was started.
    pub route-get :
        (req : Request) (st : Service os.State j.Value)
        → req.method ≡ text "GET"
        → param (text "sudopass") (parse_query host.percent_decode (Option.get_or req.query []))
          ≡ none
        → (route os env j spawn_sudo host req st).1 ≡ st
    unfolding route
    route-get req st get plain =
        let params = parse_query host.percent_decode (Option.get_or req.query []) in
        let is_get : (req.method == text "GET") ≡ true =
          (list_beq_iff req.method (text "GET")).1 get in
        rw (is_get, route) (get_route-reads req.path params st plain)
