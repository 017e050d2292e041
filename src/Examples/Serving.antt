-- ===== src/Examples/Serving.antt =====
-- The theorems on requests and settings at concrete inputs.
use web_davs_zk.Common.{
  ℕ, suc, true, Option, none, some, [], ◌∷◌, ◌≡◌, ◌≢◌, ◌↔◌, ◌⊎◌, inl, refl, list_beq, nat_eq,
  list_eq, length, arith, List, All,
}
use web_davs_zk.Common.Text.{Text, text}
use web_davs_zk.Common.Text.Trim.{trim, trim_end_matches, skip_while}
use web_davs_zk.Common.Text.Split.{starts_with, strip_prefix}
use web_davs_zk.Config.{Config, default_config}
use web_davs_zk.Auth.{BasicAuth, Headers, Response, challenge, is_authorized}
use web_davs_zk.Auth.Laws.{Grants, is_authorized_iff}
use web_davs_zk.Server.{
  Request, Webhook, webhook_path, empty_response, url_prefix, auth_of, webhook_of, handle_request,
}
use web_davs_zk.Server.Access.{
  token_of, handle_request-webhook, handle_request-dav, handle_request-empty_secret,
  handle_request-empty_credentials,
}
use web_davs_zk.Server.Serving.{Event, accepted, requested, signalled, grace_over, listening, serve}
use web_davs_zk.Server.Serving.Strangers.{IsStranger, IsRefused, serve-IsRefused}
use web_davs_zk.Server.Prefix.{LastDiffers, url_prefix_shape}
use web_davs_zk.Common.Int.{pos, ◌+ℤ◌}
use web_davs_zk.Logging.{civil_from_days}
use web_davs_zk.Logging.Calendar.{next_date}
use web_davs_zk.Logging.Days.{civil_from_days-next_date}
use web_davs_zk.Logging.Lines.{utc_timestamp}
use web_davs_zk.Logging.Lines.Stamps.{length-utc_timestamp}
use web_davs_zk.Examples.{plain_codec}

abbrev admin : BasicAuth
admin = record { user = text "admin"; pass = text "pw"; realm = text "r" }

abbrev no_headers : Headers
no_headers name = none

abbrev get_root : Request
get_root = record { method = text "GET"; path = text "/"; headers = no_headers }

abbrev post_update : Request
post_update = record { method = text "POST"; path = webhook_path; headers = no_headers }

abbrev dav : Request → ℕ → Response × ℕ
dav req w = (empty_response 200, suc w)

abbrev spawn : Text → ℕ → ℕ
spawn command w = suc w

abbrev open_hook : Webhook
open_hook = record { secret = text "s"; command = text "c" }

abbrev with_password : Headers
with_password name = some (text "Basic admin:pw")

is_authorized_iff_example :
    (is_authorized plain_codec admin with_password ≡ true) ↔ Grants plain_codec admin with_password
is_authorized_iff_example = is_authorized_iff plain_codec admin with_password

abbrev handle : Option Webhook → Option BasicAuth → Request → ℕ → Response × ℕ
handle hook auth req w = handle_request plain_codec dav spawn hook auth req w

handle_request-webhook_example :
    ((some open_hook ≡ none)
      × (handle (some open_hook) none post_update 0 ≡ (empty_response 404, 0)))
    ⊎ ((h : Webhook) × (some open_hook ≡ some h)
        × (token_of post_update ≡ h.secret)
        × (handle (some open_hook) none post_update 0 ≡ (empty_response 202, 1)))
    ⊎ ((h : Webhook) × (some open_hook ≡ some h)
        × (token_of post_update ≢ h.secret)
        × (handle (some open_hook) none post_update 0 ≡ (empty_response 403, 0)))
handle_request-webhook_example =
    handle_request-webhook plain_codec dav spawn (some open_hook) none post_update 0 refl refl

not_post : (get_root.method ≢ text "POST")
not_post e = cc

handle_request-dav_example :
    ((some admin ≡ none) × (handle none (some admin) get_root 0 ≡ dav get_root 0))
    ⊎ ((a : BasicAuth) × (some admin ≡ some a)
        × Grants plain_codec a no_headers
        × (handle none (some admin) get_root 0 ≡ dav get_root 0))
    ⊎ ((a : BasicAuth) × (some admin ≡ some a)
        × (¬ Grants plain_codec a no_headers)
        × (handle none (some admin) get_root 0 ≡ (challenge a, 0)))
handle_request-dav_example =
    handle_request-dav plain_codec dav spawn none (some admin) get_root 0 (inl not_post)

abbrev guarded : Config
guarded = record default_config {
  auth_user = some (text "admin");
  auth_pass = some (text "pw");
  keepalive_secs = 60;
}

abbrev guard : BasicAuth
guard = record { user = text "admin"; pass = text "pw"; realm = text "nzk-webdavs" }

-- A connection is accepted, and asked for `/`; then the server is told to stop.
abbrev events : List Event
events = accepted 5 true ∷ requested 5 get_root ∷ signalled ∷ grace_over ∷ []

stranger : IsStranger plain_codec dav spawn guarded guard (requested 5 get_root)
unfolding webhook_of
stranger = ((λ g. cc), (λ h e. cc))

serve-IsRefused_example :
    let s = serve plain_codec dav spawn guarded events (listening 0) in
    (s.world ≡ 0) × All (IsRefused plain_codec dav spawn guarded guard) s.answers
unfolding auth_of
serve-IsRefused_example =
    serve-IsRefused plain_codec dav spawn guarded guard events 0 refl
      (tt, (stranger, (tt, (tt, tt))))

abbrev empty_secret : Config
empty_secret = record default_config { update_secret = some [] }

handle_request-empty_secret_example :
    handle (webhook_of empty_secret) (auth_of empty_secret) post_update 0 ≡ (empty_response 202, 1)
handle_request-empty_secret_example =
    handle_request-empty_secret plain_codec dav spawn empty_secret post_update 0 refl refl refl refl

abbrev empty_credentials : Config
empty_credentials = record default_config { auth_user = some []; auth_pass = some [] }

handle_request-empty_credentials_example :
    ((handle (webhook_of empty_credentials) (auth_of empty_credentials) get_root 0).0.status ≡ 401)
    × ((handle (webhook_of empty_credentials) (auth_of empty_credentials) get_root 0).1 ≡ 0)
handle_request-empty_credentials_example =
    handle_request-empty_credentials plain_codec dav spawn empty_credentials get_root 0 refl refl
      (inl not_post) refl

trimmed_prefix : url_prefix (text " dav/ ") ≡ some (text "/dav")
unfolding url_prefix trim trim_end_matches skip_while starts_with strip_prefix list_beq
trimmed_prefix = refl

url_prefix_shape_example :
    (rest : Text) × (text "/dav" ≡ b'/' ∷ rest) × ((rest ≡ []) ⊎ LastDiffers b'/' (text "/dav"))
url_prefix_shape_example = url_prefix_shape (text " dav/ ") (text "/dav") trimmed_prefix

length-utc_timestamp_example : length (utc_timestamp 1700000000) ≡ 19
length-utc_timestamp_example = length-utc_timestamp 1700000000 (omega arith)

-- The leap day of the year 2024.
civil_from_days-next_date_example :
    (civil_from_days (pos 0) ≡ (pos 1970, 1, 1))
    × (civil_from_days (pos 19782 +ℤ pos 1) ≡ next_date (civil_from_days (pos 19782)))
civil_from_days-next_date_example =
    civil_from_days-next_date (pos 19782) (omega arith) (omega arith)
