-- ===== src/Server/Access.antt =====
-- Who can change anything through src/server.rs.
use mathlib.Core.Path.{subst}
use mathlib.Core.Option
use mathlib.Core.Option.{some-injective}
use web_davs_zk.Common.{
  ◌≡◌, ◌≢◌, ◌↔◌, ◌⊎◌, refl, sym, ◌∙◌, Bool-cases, inl, inr, Option, none, some, [], ◌==◌, list_eq,
  nat_eq, list_beq, list_beq_iff, arith,
}
use web_davs_zk.Common.Text.{Text, text}
use web_davs_zk.External.{Codec}
use web_davs_zk.Config.{Config, validate}
use web_davs_zk.Auth.{BasicAuth, Response}
use web_davs_zk.Auth.Laws.{Grants, is_authorized_iff}
use web_davs_zk.Auth.{is_authorized, challenge}
use web_davs_zk.Server.{
  webhook_of, handle_guarded, Request, Webhook, webhook_path, empty_response, auth_of,
  handle_webhook, update_command, handle_request,
}

-- Checked settings serve without a guard only if neither a user nor a password is given.
pub auth_of-validate :
    (cfg : Config)
    → validate cfg ≡ none
    → (auth_of cfg ≡ none) ↔ ((cfg.auth_user ≡ none) × (cfg.auth_pass ≡ none))
unfolding validate auth_of
auth_of-validate cfg h = ground arith

-- The token that the request brings, empty if it brings none.
abbrev pub token_of : Request → Text
token_of req = Option.get_or (req.headers "x-nzk-update-token") []

abbrev pub IsWebhook : Request → Type 0
IsWebhook req = (req.method ≡ text "POST") × (req.path ≡ webhook_path)

webhook_cases :
    (req : Request)
    → ((req.method ≡ text "POST") × (req.path ≡ webhook_path))
      ⊎ ((req.method ≢ text "POST") ⊎ (req.path ≢ webhook_path))
webhook_cases req = elim (Bool-cases (req.method == text "POST")) [
  | inl m ↦ elim (Bool-cases (req.path == webhook_path)) [
    | inl p ↦ inl ((list_beq_iff _ _).0 m, (list_beq_iff _ _).0 p)
    | inr p ↦ inr (inr (λ e. cc ((list_beq_iff _ _).1 e)))
  ]
  | inr m ↦ inr (inl (λ e. cc ((list_beq_iff _ _).1 e)))
]

challenge_status : (a : BasicAuth) → (challenge a).status ≡ 401
unfolding challenge
challenge_status a = refl

module _ {World : Type 0} (codec : Codec) (dav : Request → World → Response × World)
    (spawn : Text → World → World) where
  open codec use {ct_eq_iff}

  abbrev serve_one : Option Webhook → Option BasicAuth → Request → World → Response × World
  serve_one = handle_request codec dav spawn

  webhook_answer :
      (h : Webhook) (req : Request) (w : World)
      → ((token_of req ≡ h.secret)
          × (handle_webhook codec dav spawn (some h) req w
              ≡ (empty_response 202, spawn (update_command h.command) w)))
        ⊎ ((token_of req ≢ h.secret)
            × (handle_webhook codec dav spawn (some h) req w ≡ (empty_response 403, w)))
  unfolding handle_webhook
  webhook_answer h req w = elim (Bool-cases (codec.ct_eq (token_of req) h.secret)) [
    | inl same ↦ inl ((ct_eq_iff _ _).0 same, rw (same, handle_webhook))
    | inr other ↦ inr (λ e. cc ((ct_eq_iff _ _).1 e), rw (other, handle_webhook))
  ]

  webhook_route :
      (hook : Option Webhook) (auth : Option BasicAuth) (req : Request) (w : World)
      → req.method ≡ text "POST"
      → req.path ≡ webhook_path
      → handle_request codec dav spawn hook auth req w ≡ handle_webhook codec dav spawn hook req w
  unfolding handle_request list_beq
  webhook_route hook auth req w m p = rw (m, p)

  -- A `POST` to the webhook's path never reaches the DAV handler and needs no Basic credentials:
  -- with a webhook it runs the update command and answers 202 if the token is the secret, and
  -- answers 403 if not; without one it answers 404.
  pub handle_request-webhook :
      (hook : Option Webhook) (auth : Option BasicAuth) (req : Request) (w : World)
      → req.method ≡ text "POST"
      → req.path ≡ webhook_path
      → ((hook ≡ none) × (handle_request codec dav spawn hook auth req w ≡ (empty_response 404, w)))
        ⊎ ((h : Webhook) × (hook ≡ some h)
            × (token_of req ≡ h.secret)
            × (handle_request codec dav spawn hook auth req w
                ≡ (empty_response 202, spawn (update_command h.command) w)))
        ⊎ ((h : Webhook) × (hook ≡ some h)
            × (token_of req ≢ h.secret)
            × (handle_request codec dav spawn hook auth req w ≡ (empty_response 403, w)))
  unfolding handle_webhook
  handle_request-webhook none auth req w m p = inl (refl, webhook_route none auth req w m p)
  handle_request-webhook (some h) auth req w m p = elim (webhook_answer h req w) [
    | inl (same, e) ↦ inr (inl (h, refl, same, webhook_route (some h) auth req w m p ∙ e))
    | inr (other, e) ↦ inr (inr (h, refl, other, webhook_route (some h) auth req w m p ∙ e))
  ]

  dav_route :
      (hook : Option Webhook) (auth : Option BasicAuth) (req : Request) (w : World)
      → (req.method ≢ text "POST") ⊎ (req.path ≢ webhook_path)
      → handle_request codec dav spawn hook auth req w ≡ handle_guarded codec dav spawn auth req w
  unfolding handle_request
  dav_route hook auth req w h =
      ground (arith, list_beq_iff req.method (text "POST"), list_beq_iff req.path webhook_path)

  -- Any other request reaches the DAV handler exactly as it is if there are no credentials in the
  -- settings or if it has them; else it is answered with the 401 challenge and changes nothing.
  pub handle_request-dav :
      (hook : Option Webhook) (auth : Option BasicAuth) (req : Request) (w : World)
      → (req.method ≢ text "POST") ⊎ (req.path ≢ webhook_path)
      → ((auth ≡ none) × (handle_request codec dav spawn hook auth req w ≡ dav req w))
        ⊎ ((a : BasicAuth) × (auth ≡ some a)
            × Grants codec a req.headers
            × (handle_request codec dav spawn hook auth req w ≡ dav req w))
        ⊎ ((a : BasicAuth) × (auth ≡ some a)
            × (¬ Grants codec a req.headers)
            × (handle_request codec dav spawn hook auth req w ≡ (challenge a, w)))
  unfolding handle_guarded
  handle_request-dav hook none req w h = inl (refl, dav_route hook none req w h)
  handle_request-dav hook (some a) req w h = elim (Bool-cases (is_authorized codec a req.headers)) [
    | inl pass ↦ inr (
        inl (
          a,
          refl,
          (is_authorized_iff codec a req.headers).0 pass,
          dav_route hook (some a) req w h ∙ rw (pass, handle_guarded),
        ))
    | inr stop ↦ inr (
        inr (
          a,
          refl,
          λ g. cc ((is_authorized_iff codec a req.headers).1 g),
          dav_route hook (some a) req w h ∙ rw (stop, handle_guarded),
        ))
  ]

  -- With credentials in the settings, a request that lacks them and does not bring the secret of
  -- the webhook changes nothing, and is answered with 401, 403 or 404.
  pub handle_request-refused :
      (hook : Option Webhook) (a : BasicAuth) (req : Request) (w : World)
      → ¬ Grants codec a req.headers
      → ((h : Webhook) → hook ≡ some h → token_of req ≢ h.secret)
      → let r = handle_request codec dav spawn hook (some a) req w in
        (r.1 ≡ w) × ((r.0.status ≡ 401) ⊎ (r.0.status ≡ 403) ⊎ (r.0.status ≡ 404))
  handle_request-refused hook a req w no_grant no_token = elim (webhook_cases req) [
    | inl (m, p) ↦ elim (handle_request-webhook hook (some a) req w m p) [
      | inl (_, e) ↦ rw e (refl, inr (inr refl))
      | inr (inl (h, is_h, same, _)) ↦ absurd (no_token h is_h same)
      | inr (inr (h, _, _, e)) ↦ rw e (refl, inr (inl refl))
    ]
    | inr other ↦ elim (handle_request-dav hook (some a) req w other) [
      | inl (e, _) ↦ absurd (grind arith)
      | inr (inl (b, e, g, _)) ↦
          absurd (no_grant (subst (λ c. Grants codec c req.headers) (some-injective _ _ (sym e)) g))
      | inr (inr (b, _, _, e)) ↦ rw e (refl, inl (challenge_status b))
    ]
  ]

  -- A secret that is set but empty lets anyone run the update command: a `POST` to the webhook's
  -- path without a token is answered with 202.
  pub handle_request-empty_secret :
      (cfg : Config) (req : Request) (w : World)
      → cfg.update_secret ≡ some []
      → req.method ≡ text "POST"
      → req.path ≡ webhook_path
      → req.headers "x-nzk-update-token" ≡ none
      → handle_request codec dav spawn (webhook_of cfg) (auth_of cfg) req w
        ≡ (empty_response 202, spawn (update_command cfg.update_cmd) w)
  unfolding handle_webhook webhook_of
  handle_request-empty_secret cfg req w e m p t =
      rw (webhook_route (webhook_of cfg) (auth_of cfg) req w m p)
        (rw (e, t) (rw ((ct_eq_iff [] []).1 refl)))

  challenged :
      (a : BasicAuth) (req : Request) (w : World)
      → req.headers "authorization" ≡ none
      → handle_guarded codec dav spawn (some a) req w ≡ (challenge a, w)
  unfolding handle_guarded is_authorized
  challenged a req w h = rw (h, handle_guarded, is_authorized)

  -- A user and a password that are set but empty do not disable the guard: a request without an
  -- `Authorization` header, other than to the webhook's path, gets the 401 challenge.
  pub handle_request-empty_credentials :
      (cfg : Config) (req : Request) (w : World)
      → cfg.auth_user ≡ some []
      → cfg.auth_pass ≡ some []
      → (req.method ≢ text "POST") ⊎ (req.path ≢ webhook_path)
      → req.headers "authorization" ≡ none
      → let r = handle_request codec dav spawn (webhook_of cfg) (auth_of cfg) req w in
        (r.0.status ≡ 401) × (r.1 ≡ w)
  unfolding auth_of
  handle_request-empty_credentials cfg req w u p other h =
      rw (dav_route (webhook_of cfg) (auth_of cfg) req w other)
        (rw (u, p) (rw (challenged _ req w h) (challenge_status _, refl)))
