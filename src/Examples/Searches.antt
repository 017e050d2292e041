-- ===== src/Examples/Searches.antt =====
-- The theorems on searches at concrete inputs.
use mathlib.Core.List.{map}
use web_davs_zk.Common.{
  ℕ, arith, zero, suc, ◌≡◌, refl, ap, true, false, some, List, [], ◌∷◌, ◌++◌, ◌==◌, nat_eq, list_eq,
  list_beq, length, All,
}
use web_davs_zk.Common.Sort.{IsSorted, place, sort_by}
use web_davs_zk.Common.Text.{Text, text, show}
use web_davs_zk.Common.Text.Split.{split, strip_prefix, contains, starts_with}
use web_davs_zk.Common.Text.Trim.{trim}
use web_davs_zk.Io.{Os, Result, ok}
use web_davs_zk.Io.Paths.{join}
use web_davs_zk.Mover.Names.{Params, param, resolve_path, parse_search_query}
use web_davs_zk.Mover.Search.{
  Search, search_done, new_search, is_match, match_value, path_of, search_entries, walk_search,
  run_search,
}
use web_davs_zk.Mover.Search.Bounds.{IsBounded, run_search-IsBounded}
use web_davs_zk.Mover.Search.Cut.{IsPlainHit, run_search_silently_cut}
use web_davs_zk.Mover.Search.Ends.{IsWithin, run_search-Some}
use web_davs_zk.Mover.Search.Polling.{
  Walk, Searches, started, found, handle_search_start, handle_search, run_walk,
}
use web_davs_zk.Mover.Search.Polling.Answers.{handle_search_start-polled}
use web_davs_zk.Examples.{disk, folder}
use web_davs_zk.Examples.Helper.{plain_json, env, find}

abbrev in_lower_case : Text → Text
in_lower_case t = t

abbrev query : Text
query = text "x"

abbrev hit : Text
hit = match_value disk plain_json in_lower_case query [] folder (text "x") 0

abbrev searched : Search Text
searched = record (new_search folder query) { matches = hit ∷ []; status = search_done }

search_ends :
    run_search disk plain_json in_lower_case 1 folder query 0 (new_search folder query)
    ≡ some searched
unfolding run_search walk_search search_entries parse_search_query split list_beq trim strip_prefix
    is_match contains join sort_by place
search_ends = refl

run_search-IsBounded_example :
    (searched.status ≡ search_done)
    × IsSorted (path_of plain_json) searched.matches
    × IsBounded disk plain_json in_lower_case 0 query [] folder searched
unfolding parse_search_query split list_beq trim strip_prefix
run_search-IsBounded_example =
    run_search-IsBounded disk plain_json in_lower_case 0 1 folder query searched search_ends

no_folders :
    (names : List (Result Text))
    → All (λ entry. (name : Text) → entry ≡ ok name → false ≡ true → ⊥) names
no_folders [] = tt
no_folders (entry ∷ names) = ((λ name e folder. cc), no_folders names)

flat : IsWithin disk 0 1 folder
flat names e = no_folders names

run_search-Some_example :
    (r : Search Text) × (run_search disk plain_json in_lower_case 1 folder query 0
        (new_search folder query)
      ≡ some r)
run_search-Some_example =
    run_search-Some disk 0 plain_json in_lower_case 1 folder query (new_search folder query) flat

abbrev x_times : ℕ → Text
x_times zero = []
x_times (suc n) = b'x' ∷ x_times n

-- As many different names.
many : ℕ → List Text
many zero = []
many (suc n) = (b'x' ∷ x_times n) ∷ many n

-- A folder of 1000 files, with a folder after them.
abbrev wide_disk : Os
wide_disk = record disk {
  read_dir = λ p s. ok (map ok (many 1000) ++ ok (text "d") ∷ []);
  entry_is_dir = λ p s. p == text "/d/d";
}

length-many : (n : ℕ) → length (many n) ≡ n
unfolding many
length-many zero = refl
length-many (suc n) = ap suc (length-many n)

many-IsPlainHit :
    (n : ℕ) → All (IsPlainHit wide_disk plain_json in_lower_case 0 query [] folder) (many n)
unfolding many is_match contains join list_beq
many-IsPlainHit zero = tt
many-IsPlainHit (suc n) = ((refl, refl), many-IsPlainHit n)

run_search_silently_cut_example :
    (r : Search Text) × (run_search wide_disk plain_json in_lower_case 2 folder query 0
        (new_search folder query)
      ≡ some r)
    × (r.status ≡ search_done)
    × (r.truncated ≡ false)
    × (length r.matches ≡ 1000)
unfolding parse_search_query split list_beq trim strip_prefix is_match contains join
run_search_silently_cut_example =
    run_search_silently_cut wide_disk plain_json in_lower_case 0 0 folder query (text "d")
      (many 1000) refl (many-IsPlainHit 1000) (length-many 1000) refl refl

abbrev request : Text
request =
    plain_json.object
      ((text "root", plain_json.string folder) ∷ (text "q", plain_json.string query) ∷ [])

abbrev idle : Searches Text
idle = record { next_search = 12; searches = []; walks = [] }

abbrev asking : Params
asking = (text "id", text "12") ∷ []

id_is_printed : param (text "id") asking ≡ some (show 12)
unfolding param list_beq show
id_is_printed = refl

handle_search_start-polled_example :
    let (reply, st') = handle_search_start env plain_json (ok request) idle in
    let walk : Walk = record { id = 12; root = folder; q = query } in
    (reply ≡ started env plain_json 12)
    × (st'.walks ≡ walk ∷ [])
    × (handle_search env plain_json asking st' ≡ found env plain_json 12 (new_search folder query))
    × ((st'' : Searches Text) × (run_walk env plain_json disk in_lower_case 1 walk 0 st'
          ≡ some st'')
        × (handle_search env plain_json asking st'' ≡ found env plain_json 12 searched))
unfolding resolve_path find starts_with list_beq
handle_search_start-polled_example =
    handle_search_start-polled env plain_json asking request request idle disk in_lower_case 1 0
      searched refl (λ e. cc) (λ e. cc) (omega arith) id_is_printed search_ends
