-- ===== src/Server/Serving/Strangers.antt =====
-- What those can do to src/server.rs who do not know a password.
use web_davs_zk.Common.{
  ℕ, ◌≡◌, ◌≢◌, ◌⊎◌, refl, ◌∙◌, inl, inr, Bool-cases, some, List, [], ◌∷◌, All, All-append,
}
use web_davs_zk.Common.Text.{Text}
use web_davs_zk.External.{Codec}
use web_davs_zk.Config.{Config}
use web_davs_zk.Auth.{BasicAuth, Response}
use web_davs_zk.Auth.Laws.{Grants}
use web_davs_zk.Server.{Request, Webhook, auth_of, webhook_of, handle_request}
use web_davs_zk.Server.Access.{token_of, handle_request-refused}
use web_davs_zk.Server.Serving.{
  Event, accepted, requested, closed, signalled, grace_over, Serving, listening, is_open, react,
  serve,
}

module _ {World : Type 0} (codec : Codec) (dav : Request → World → Response × World)
    (spawn : Text → World → World) (cfg : Config) (a : BasicAuth) where
  -- A request without the credentials of the settings and without the secret of the webhook.
  abbrev pub IsStranger : Event → Type 0
  IsStranger (requested id req) =
      (¬ Grants codec a req.headers)
      × ((h : Webhook) → webhook_of cfg ≡ some h → token_of req ≢ h.secret)
  IsStranger _ = Unit {0}

  abbrev pub IsRefused : ℕ × Response → Type 0
  IsRefused (id, r) = (r.status ≡ 401) ⊎ (r.status ≡ 403) ⊎ (r.status ≡ 404)

  abbrev Untouched : World → Serving World → Type 0
  Untouched w s = (s.world ≡ w) × All IsRefused s.answers

  react-Untouched :
      (e : Event) (w : World) (s : Serving World)
      → auth_of cfg ≡ some a
      → IsStranger e
      → Untouched w s
      → Untouched w (react codec dav spawn cfg e s)
  unfolding react
  react-Untouched (accepted id shaken) w s guarded stranger same = elim (Bool-cases s.accepting) [
    | inl running ↦ rw (running, react) same
    | inr over ↦ rw (over, react) same
  ]
  react-Untouched (requested id req) w s guarded stranger same =
      let r = handle_request codec dav spawn (webhook_of cfg) (auth_of cfg) req s.world in
      let refused : (r.1 ≡ s.world)
          × ((r.0.status ≡ 401) ⊎ (r.0.status ≡ 403) ⊎ (r.0.status ≡ 404)) =
        rw guarded (
          handle_request-refused codec dav spawn (webhook_of cfg) a req s.world stranger.0
            stranger.1) in
      elim (Bool-cases (is_open id s.connections)) [
        | inl there ↦
            rw (there, react)
              (
                refused.0 ∙ same.0,
                All-append IsRefused s.answers ((id, r.0) ∷ []) same.1 (refused.1, tt),
              )
        | inr gone ↦ rw (gone, react) same
      ]
  react-Untouched (closed id) w s guarded stranger same = same
  react-Untouched signalled w s guarded stranger same = same
  react-Untouched grace_over w s guarded stranger same = elim (Bool-cases s.accepting) [
    | inl running ↦ rw (running, react) same
    | inr over ↦ rw (over, react) same
  ]

  serve-Untouched :
      (events : List Event) (w : World) (s : Serving World)
      → auth_of cfg ≡ some a
      → All IsStranger events
      → Untouched w s
      → Untouched w (serve codec dav spawn cfg events s)
  unfolding serve
  serve-Untouched [] w s guarded strangers same = same
  serve-Untouched (e ∷ events) w s guarded strangers same =
      serve-Untouched events w (react codec dav spawn cfg e s) guarded strangers.1
        (react-Untouched e w s guarded strangers.0 same)

  -- With credentials in the settings, and as long as no request on any connection has them or brings
  -- the secret of the webhook, the server changes nothing, whatever comes when, and all its answers
  -- are 401, 403 or 404.
  pub serve-IsRefused :
      (events : List Event) (w : World)
      → auth_of cfg ≡ some a
      → All IsStranger events
      → let s = serve codec dav spawn cfg events (listening w) in
        (s.world ≡ w) × All IsRefused s.answers
  serve-IsRefused events w guarded strangers =
      serve-Untouched events w (listening w) guarded strangers (refl, tt)
