-- ===== src/Examples/Routing.antt =====
-- The theorems on requests to the file mover at concrete inputs.
use web_davs_zk.Common.{ℕ, suc, ◌≡◌, refl, none, some, [], ◌∷◌, nat_eq, list_eq, list_beq}
use web_davs_zk.Common.Text.{text}
use web_davs_zk.Common.Text.Split.{split, split_once, starts_with}
use web_davs_zk.Common.Text.Trim.{trim}
use web_davs_zk.Io.{Os, ok, err}
use web_davs_zk.Mover.Jobs.Unique.{Reach, NoConflict}
use web_davs_zk.Mover.Names.{Params, param, parse_query, resolve_path}
use web_davs_zk.Mover.Requests.{SpawnSudo}
use web_davs_zk.Mover.Requests.Elevated.{RunsHelper}
use web_davs_zk.Mover.Listing.{listing, handle_ls}
use web_davs_zk.Mover.Listing.Elevated.{handle_ls_of_failing_helper}
use web_davs_zk.Mover.Put.{Frames}
use web_davs_zk.Mover.Route.{Request, Host, initial, route, serve}
use web_davs_zk.Mover.Route.Reading.{route-get}
use web_davs_zk.Mover.Route.Registry.{registry, serve-Reach}
use web_davs_zk.Sudo.{main}
use web_davs_zk.Examples.{disk, denied}
use web_davs_zk.Examples.Helper.{plain_json, plain_json_laws, env}

-- Nobody can read a folder.
abbrev closed : Os
closed = record disk { read_dir = λ p s. err denied }

abbrev sudo : SpawnSudo closed
sudo stdin arg s = elim (main closed plain_json 0 (arg ∷ []) s) [
  | none ↦ (none, s)
  | some (answer, s') ↦ (some answer, s')
]

sudo-RunsHelper : RunsHelper closed env plain_json plain_json_laws sudo (text "pw")
sudo-RunsHelper arg s s' rc out e = rw (e, sudo) refl

abbrev ls_params : Params
ls_params = (text "p", text "/d") ∷ (text "sudopass", text "pw") ∷ []

handle_ls_of_failing_helper_example :
    handle_ls closed env plain_json sudo ls_params 0
    ≡ (listing closed env plain_json sudo (text "/d") plain_json.null, 0)
unfolding param list_beq resolve_path trim starts_with
handle_ls_of_failing_helper_example =
    handle_ls_of_failing_helper closed env plain_json plain_json_laws sudo ls_params (text "pw") 0
      denied refl refl refl refl sudo-RunsHelper

-- There is no sudo.
abbrev no_sudo : SpawnSudo disk
no_sudo stdin arg s = (none, s)

abbrev put_params : Params
put_params = (text "dst", text "/d/y") ∷ []

abbrev frames : Frames
frames = ok (some (1 ∷ 2 ∷ [])) ∷ ok none ∷ ok (some (3 ∷ [])) ∷ []

abbrev host : Host ℕ
host = record {
  html = text "<html>";
  git_commit = text "abc";
  version = text "1";
  update_script = none;
  temp_dir = text "/tmp";
  pid = 3;
  nanos = λ s. s;
  percent_decode = λ t. t;
  spawn_shell = λ command s. suc s;
}

abbrev get_ls : Request
get_ls = record {
  method = text "GET";
  path = text "/api/ls";
  query = some (text "p=/d");
  body = ok [];
  frames = [];
}

no_password : param (text "sudopass") (parse_query (λ t. t) (text "p=/d")) ≡ none
unfolding param parse_query list_beq split split_once
no_password = refl

route-get_example : (route disk env plain_json no_sudo host get_ls (initial 0)).1 ≡ initial 0
route-get_example = route-get disk env plain_json no_sudo host get_ls (initial 0) refl no_password

abbrev post_copy : Request
post_copy = record {
  method = text "POST";
  path = text "/api/copy";
  query = none;
  body = ok (
      plain_json.object (
        (text "src", plain_json.string (text "/d/x"))
        ∷ (text "dst", plain_json.string (text "/e"))
        ∷ []));
  frames = [];
}

serve-Reach_example :
    let st' =
      (serve disk env plain_json no_sudo host
        (post_copy ∷ get_ls ∷ post_copy ∷ [])
        (initial 0)).1 in
    Reach (registry st'.server) × NoConflict st'.server.jobs
serve-Reach_example =
    serve-Reach disk env plain_json no_sudo host (post_copy ∷ get_ls ∷ post_copy ∷ []) (initial 0)
      Reach.start
