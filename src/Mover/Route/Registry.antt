-- ===== src/Mover/Route/Registry.antt =====
-- The requests to src/bin/file-mover.rs as steps on the registry of jobs.
use mathlib.Core.Option
use web_davs_zk.Common.{
  inl, inr, Bool, true, false, Option-cases, Option, none, some, List, [], ◌∷◌, ◌||◌, not, ◌==◌,
  nat_eq, list_eq, if◌then◌else◌,
}
use web_davs_zk.Common.Text.{Text, text}
use web_davs_zk.Io.{Os, Result, Result-forms, ok, err}
use web_davs_zk.Io.Paths.{same_path}
use web_davs_zk.Json.{Serde, text_field}
use web_davs_zk.Mover.Jobs.{Op, move_op, copy_op, find_duplicate, register}
use web_davs_zk.Mover.Jobs.Unique.{Registry, Step, Reach, NoConflict, Reach-NoConflict}
use web_davs_zk.Mover.Names.{Env, Params, resolve_path, parse_query, dest_for}
use web_davs_zk.Mover.Requests.{Server, SpawnSudo}
use web_davs_zk.Mover.Start
use web_davs_zk.Mover.Start.{
  parse_body, choose, enqueue, transfer_to, transfer_value, delete_value, handle_move_copy,
  handle_delete,
}
use web_davs_zk.Mover.Route
use web_davs_zk.Mover.Route.{Request, Host, Service, get_route, post_route, route, serve}

abbrev pub registry : {State : Type 0} → Server State → Registry
registry st = record { next_id = st.next_id; jobs = st.jobs }

module _ (os : Os) (env : Env) (j : Serde) (spawn_sudo : SpawnSudo os) where
  -- Where the registry could be reached before, it can be reached after.
  data Runs (st : Server os.State) : Start.Handled os env j spawn_sudo → Type 0 where
    runs :
        {h : Start.Handled os env j spawn_sudo}
        → (Reach (registry st) → Reach (registry h.1))
        → Runs st h

  Runs-Reach :
      (st : Server os.State) (h : Start.Handled os env j spawn_sudo)
      → Runs st h
      → Reach (registry st)
      → Reach (registry h.1)
  Runs-Reach st h (runs f) = f

  if-Runs :
      (b : Bool) (x y : Start.Handled os env j spawn_sudo) (st : Server os.State)
      → Runs st x
      → Runs st y
      → Runs st (if b then x else y)
  if-Runs true x y st p q = p
  if-Runs false x y st p q = q

  enqueue-Runs :
      (op : Op) (src dst : Text) (st : Server os.State)
      → Runs st (enqueue os env j spawn_sudo op src dst st)
  unfolding enqueue register
  enqueue-Runs op src dst st = elim (Option-cases (find_duplicate op src dst st.jobs)) [
    | inr (eid, known) ↦ rw (known, enqueue, register) (runs (λ r. Reach.later r Step.take_id))
    | inl fresh ↦
        rw (fresh, enqueue, register)
          (runs
            (λ r. Reach.later (Reach.later r Step.take_id) (Step.request st.next_id op src dst)))
  ]

  transfer_to-Runs :
      (op : Op) (sp src strategy taken : Text) (o : Option Text) (st : Server os.State)
      → Runs st (transfer_to os env j spawn_sudo op sp src strategy taken o st)
  transfer_to-Runs op sp src strategy taken none st = runs (λ r. r)
  transfer_to-Runs op sp src strategy taken (some dst) st =
      if-Runs (not (sp == [])) _ _ st (runs (λ r. r)) (enqueue-Runs op src dst st)

  parse_body-Runs :
      (body : Result Text) (handle : j.Value → Server os.State → Start.Handled os env j spawn_sudo)
      (st : Server os.State)
      → ((v : j.Value) → Runs st (handle v st))
      → Runs st (parse_body os env j spawn_sudo body handle st)
  parse_body-Runs (err e) handle st h = runs (λ r. r)
  parse_body-Runs (ok bytes) handle st h = elim (Option-cases (j.from_str bytes)) [
    | inl bad ↦ rw (bad, parse_body) (runs (λ r. r))
    | inr (v, parsed) ↦ rw (parsed, parse_body) (h v)
  ]

  transfer_value-Runs :
      (op : Op) (v : j.Value) (st : Server os.State)
      → Runs st (transfer_value os env j spawn_sudo op v st)
  unfolding transfer_value
  transfer_value-Runs op v st =
      let src = text_field j (text "src") v in
      let dst = text_field j (text "dst") v in
      let sp = text_field j (text "sudopass") v in
      let strategy = text_field j (text "strategy") v in
      let final_dst = dest_for os src dst st.fs in
      if-Runs (src == [] || dst == []) _ _ st (runs (λ r. r)) (
        if-Runs (same_path src final_dst) _ _ st (runs (λ r. r)) (
          if-Runs (not (os.exists src st.fs)) _ _ st (runs (λ r. r)) (
            transfer_to-Runs op sp src strategy final_dst
              (choose os env j spawn_sudo strategy final_dst st.fs) st)))

  handle_move_copy-Runs :
      (body : Result Text) (is_move : Bool) (st : Server os.State)
      → Runs st (handle_move_copy os env j spawn_sudo body is_move st)
  unfolding handle_move_copy
  handle_move_copy-Runs body is_move st =
      parse_body-Runs body _ st
        (λ v. transfer_value-Runs (if is_move then move_op else copy_op) v st)

  delete_value-Runs :
      (v : j.Value) (st : Server os.State) → Runs st (delete_value os env j spawn_sudo v st)
  unfolding delete_value
  delete_value-Runs v st =
      let src = text_field j (text "src") v in
      let sp = text_field j (text "sudopass") v in
      let p = resolve_path env src in
      if-Runs (src == []) _ _ st (runs (λ r. r))
        (elim (Result-forms (os.symlink_metadata p st.fs)) [
          | inr (e, missing) ↦ rw missing (runs (λ r. r))
          | inl (md, found) ↦ rw found (
              if-Runs (not (sp == [])) _ _ st (runs (λ r. r)) (
                runs (λ r.
                  Reach.later (Reach.later r Step.take_id) (Step.request_delete st.next_id p))))
        ])

  handle_delete-Runs :
      (body : Result Text) (st : Server os.State)
      → Runs st (handle_delete os env j spawn_sudo body st)
  unfolding handle_delete
  handle_delete-Runs body st = parse_body-Runs body _ st (λ v. delete_value-Runs v st)

  module _ (host : Host os.State) where
    data ServiceRuns (st : Service os.State j.Value)
        : Route.Handled os env j spawn_sudo host → Type 0 where
      service_runs :
          {h : Route.Handled os env j spawn_sudo host}
          → (Reach (registry st.server) → Reach (registry h.1.server))
          → ServiceRuns st h

    if-ServiceRuns :
        (b : Bool) (x y : Route.Handled os env j spawn_sudo host) (st : Service os.State j.Value)
        → ServiceRuns st x
        → ServiceRuns st y
        → ServiceRuns st (if b then x else y)
    if-ServiceRuns true x y st p q = p
    if-ServiceRuns false x y st p q = q

    get_route-ServiceRuns :
        (path : Text) (params : Params) (st : Service os.State j.Value)
        → ServiceRuns st (get_route os env j spawn_sudo host path params st)
    get_route-ServiceRuns path params st =
        if-ServiceRuns (path == text "/") _ _ st (service_runs (λ r. r)) (
          if-ServiceRuns (path == text "/api/roots") _ _ st (service_runs (λ r. r)) (
            if-ServiceRuns (path == text "/api/version") _ _ st (service_runs (λ r. r)) (
              if-ServiceRuns (path == text "/api/status") _ _ st (service_runs (λ r. r)) (
                if-ServiceRuns (path == text "/api/ls") _ _ st (service_runs (λ r. r)) (
                  if-ServiceRuns (path == text "/api/search") _ _ st (service_runs (λ r. r))
                    (service_runs (λ r. r)))))))

    post_route-ServiceRuns :
        (path : Text) (params : Params) (req : Request) (st : Service os.State j.Value)
        → ServiceRuns st (post_route os env j spawn_sudo host path params req st)
    post_route-ServiceRuns path params req st =
        if-ServiceRuns (path == text "/api/update") _ _ st (service_runs (λ r. r)) (
          if-ServiceRuns (path == text "/api/mkdir") _ _ st (service_runs (λ r. r)) (
            if-ServiceRuns (path == text "/api/put") _ _ st (service_runs (λ r. r)) (
              if-ServiceRuns (path == text "/api/move" || path == text "/api/copy") _ _ st
                (service_runs (
                  Runs-Reach st.server _
                    (handle_move_copy-Runs req.body (path == text "/api/move") st.server)))
                (if-ServiceRuns (path == text "/api/rename") _ _ st (service_runs (λ r. r)) (
                  if-ServiceRuns (path == text "/api/delete") _ _ st
                    (service_runs (Runs-Reach st.server _ (handle_delete-Runs req.body st.server)))
                    (if-ServiceRuns (path == text "/api/search") _ _ st (service_runs (λ r. r))
                      (service_runs (λ r. r))))))))

    route-ServiceRuns :
        (req : Request) (st : Service os.State j.Value)
        → ServiceRuns st (route os env j spawn_sudo host req st)
    unfolding route
    route-ServiceRuns req st =
        let params = parse_query host.percent_decode (Option.get_or req.query []) in
        if-ServiceRuns (req.method == text "GET") _ _ st (get_route-ServiceRuns req.path params st)
          (if-ServiceRuns (req.method == text "POST") _ _ st
            (post_route-ServiceRuns req.path params req st) (service_runs (λ r. r)))

    ServiceRuns-Reach :
        (st : Service os.State j.Value) (h : Route.Handled os env j spawn_sudo host)
        → ServiceRuns st h
        → Reach (registry st.server)
        → Reach (registry h.1.server)
    ServiceRuns-Reach st h (service_runs f) = f

    route-Reach :
        (req : Request) (st : Service os.State j.Value)
        → Reach (registry st.server)
        → Reach (registry (route os env j spawn_sudo host req st).1.server)
    route-Reach req st r = ServiceRuns-Reach st _ (route-ServiceRuns req st) r

    -- What the requests to the file mover do to the counter and the map of jobs, whatever they are and
    -- in whatever order they come, is a sequence of the steps of the model of interleavings: where
    -- these can be reached before the requests, they can be reached after them. So no requests make
    -- two queued or running jobs do the same work.
    pub serve-Reach :
        (reqs : List Request) (st : Service os.State j.Value)
        → Reach (registry st.server)
        → let st' = (serve os env j spawn_sudo host reqs st).1 in
          Reach (registry st'.server) × NoConflict st'.server.jobs
    unfolding serve
    serve-Reach [] st r = (r, Reach-NoConflict r)
    serve-Reach (req ∷ reqs) st r =
        serve-Reach reqs (route os env j spawn_sudo host req st).1 (route-Reach req st r)
