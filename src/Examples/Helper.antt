-- ===== src/Examples/Helper.antt =====
-- The theorems on requests that use the helper, or start jobs, at concrete inputs.
use web_davs_zk.Common.{
  ℕ, zero, suc, Bool, not, ◌&&◌, arith, true, false, Option, none, some, List, [], ◌∷◌, ◌++◌, ◌≡◌,
  ◌↔◌, refl, list_beq, ◌==◌, nat_eq, list_eq, length, take, drop, take-length-append,
  drop-length-append, if◌then◌else◌,
}
use web_davs_zk.Common.Text.{Text, text}
use web_davs_zk.Io.{Os, ok, err, Metadata, is_ok}
use web_davs_zk.Json.{Serde, SerdeLaws, field}
use web_davs_zk.Mover.Jobs.{move_op}
use web_davs_zk.Mover.Names.{Env, Params, root_for, root_a, param, dest_for, webdav_url_to_path}
use web_davs_zk.Common.Text.Split.{Lacks}
use web_davs_zk.Common.Text.Trim.{trim_start_matches}
use web_davs_zk.Mover.Names.Urls.{IsPlain, address, place, webdav_url_to_path-address}
use web_davs_zk.Io.Paths.{join, is_rooted}
use web_davs_zk.Mover.Requests.{Server, SpawnSudo, ok_reply, handle_mkdir}
use web_davs_zk.Mover.Requests.Elevated.{RunsHelper, handle_mkdir_of_failing_helper}
use web_davs_zk.Mover.Start.{transferred, elevated_reply}
use web_davs_zk.Mover.Start.Queue.{Requests}
use web_davs_zk.Mover.Start.Conflict.{conflict_is_taken_for_success}
use web_davs_zk.Sudo.Tree.{choose}
use web_davs_zk.Sudo.{answered, conflict_value, run_transfer, run_delete, printed, main}
use web_davs_zk.Sudo.Protocol.{deletion_status, remove, of_deletion-run_delete}
use web_davs_zk.Examples.{disk, inside, denied}

-- Values as texts: a tag, and for an object its fields, each part with its length in front.
abbrev encode : List (Text × Text) → Text
encode [] = []
encode ((k, v) ∷ fields) = length k ∷ (k ++ (length v ∷ (v ++ encode fields)))

abbrev value_at : (Text → Option Text) → Text → Text → Text → Option Text
value_at next k key [] = none
value_at next k key (m ∷ t) =
    let rest = next (drop m t) in if key == k then some (take m t) else rest

unfoldable pub find : ℕ → Text → Text → Option Text
find zero k t = none
find (suc fuel) k [] = none
find (suc fuel) k (n ∷ t) = value_at (find fuel k) k (take n t) (drop n t)

-- An object begins with the number of its fields.
abbrev get_field : Text → Text → Option Text
get_field k [] = none
get_field k (n ∷ t) = find n k t

-- Other values begin with 0.
abbrev untagged : Text → Option Text
untagged [] = none
untagged (n ∷ t) = some t

abbrev pub plain_json : Serde
plain_json = record {
  Value = Text;
  null = 0 ∷ [];
  boolean = λ b. 0 ∷ (if b then 1 else 0) ∷ [];
  number = λ n. 0 ∷ n ∷ [];
  string = λ t. 0 ∷ t;
  array = λ vs. 0 ∷ [];
  object = λ fields. length fields ∷ encode fields;
  get = get_field;
  as_str = untagged;
  to_string = λ v. v;
  from_str = some;
  parse_error = λ t. t;
}

find-encode :
    (k : Text) (fields : List (Text × Text))
    → find (length fields) k (encode fields) ≡ field k fields
unfolding find
find-encode k [] = refl
find-encode k ((key, v) ∷ fields) = rw (take-length-append key (length v ∷ (v ++ encode fields))) (
    rw (drop-length-append key (length v ∷ (v ++ encode fields))) (
      rw (take-length-append v (encode fields))
        (rw (drop-length-append v (encode fields)) (rw (find-encode k fields) refl))))

pub plain_json_laws : SerdeLaws plain_json
plain_json_laws = record {
  from_str-to_string = λ v. refl;
  get-object = find-encode;
  as_str-string = λ t. refl;
}

abbrev pub env : Env
env = record { home = some (text "/h"); url_a = none; url_b = none }

-- Nobody can create a folder.
abbrev locked : Os
locked = record disk { create_dir_all = λ p s. (err denied, suc s) }

abbrev sudo : SpawnSudo locked
sudo stdin arg s = elim (main locked plain_json 0 (arg ∷ []) s) [
  | none ↦ (none, s)
  | some (answer, s') ↦ (some answer, s')
]

sudo-RunsHelper : RunsHelper locked env plain_json plain_json_laws sudo (text "pw")
sudo-RunsHelper arg s s' rc out e = rw (e, sudo) refl

abbrev mkdir_params : Params
mkdir_params = (text "dst", text "/n") ∷ (text "sudopass", text "pw") ∷ []

handle_mkdir_of_failing_helper_example :
    handle_mkdir locked env plain_json sudo mkdir_params 0
    ≡ (ok_reply locked env plain_json sudo (text "/n"), 2)
unfolding list_beq param
handle_mkdir_of_failing_helper_example =
    handle_mkdir_of_failing_helper locked env plain_json plain_json_laws sudo mkdir_params
      (text "/n") (text "pw") 0 1 2 denied denied refl refl refl refl refl sudo-RunsHelper refl

-- The request to move the file to a folder that has a file of that name.
abbrev taken : Text
taken =
    plain_json.object
      ((text "src", plain_json.string inside) ∷ (text "dst", plain_json.string inside) ∷ [])

conflict_is_taken_for_success_example :
    (run_transfer disk plain_json 1 true taken 0
      ≡ some (answered (conflict_value disk plain_json inside), 0))
    × (elevated_reply disk env plain_json sudo move_op
          (0, printed disk plain_json (answered (conflict_value disk plain_json inside)))
        ≡ transferred disk env plain_json sudo move_op inside)
unfolding list_beq dest_for choose find
conflict_is_taken_for_success_example =
    conflict_is_taken_for_success disk env plain_json plain_json_laws sudo 1 true move_op taken 0
      inside refl refl

of_deletion-run_delete_example :
    (deletion_status disk env plain_json plain_json_laws sudo
        (run_delete disk plain_json inside 0).0
      ≡ 200)
    ↔ ((md : Metadata) × (disk.symlink_metadata inside 0 ≡ ok md)
        × (is_ok (remove disk env plain_json plain_json_laws sudo md inside 0).0 ≡ true))
of_deletion-run_delete_example =
    of_deletion-run_delete disk env plain_json plain_json_laws sudo inside 0

abbrev server : Server ℕ
server = record { fs = 0; next_id = 1; jobs = []; tasks = [] }

abbrev move_body : Text
move_body =
    plain_json.object
      ((text "src", plain_json.string inside) ∷ (text "dst", plain_json.string (text "/e")) ∷ [])

abbrev lacks : ℕ → Text → Bool
lacks c [] = true
lacks c (x ∷ t) = not (x == c) && lacks c t

lacks-Lacks : (c : ℕ) (t : Text) → lacks c t ≡ true → Lacks c t
lacks-Lacks c [] h = tt
lacks-Lacks c (x ∷ t) h = ground (arith, lacks-Lacks c t)

plain : (t : Text) → lacks b'/' t && (lacks b':' t && lacks b'@' t) ≡ true → IsPlain t
plain t h = (
  lacks-Lacks b'/' t (ground arith),
  lacks-Lacks b':' t (ground arith),
  lacks-Lacks b'@' t (ground arith),
)

abbrev host : Text
host = text "192.0.2.1"

abbrev port : Text
port = text "51337"

abbrev led : Option Text
led = some (text "/h/webdav/f")

webdav_url_to_path-address_example :
    let at = address host port (text "f") in
    let led = place env host port (text "f") in
    (is_rooted (trim_start_matches b'/' (text "f")) ≡ false)
    × (webdav_url_to_path env (text "webdav://" ++ at) ≡ led)
    × (webdav_url_to_path env (text "webdavs://" ++ at) ≡ led)
    × (webdav_url_to_path env (text "webdav://" ++ (text "me:pw" ++ b'@' ∷ at)) ≡ led)
    × (webdav_url_to_path env (text "webdavs://" ++ (text "me:pw" ++ b'@' ∷ at)) ≡ led)
webdav_url_to_path-address_example =
    webdav_url_to_path-address env (text "me:pw") host port (text "f") (plain host refl)
      (plain port refl) (lacks-Lacks b'@' (text "f") refl)

-- The place that the example comes to.
led_to : place env host port (text "f") ≡ led
unfolding list_beq join trim_start_matches root_a root_for
led_to = refl
