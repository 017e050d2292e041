-- ===== src/Mover/Search.antt =====
-- The search of src/bin/file-mover.rs: the walk, its end, and the requests that start and read it.
-- One search is its record in the map, which only its own walk changes. Unicode `to_lowercase` is a
-- parameter.
pub mod Rule
pub mod Bounds
pub mod Cut
pub mod Ends
pub mod Polling
use mathlib.Core.Option
use web_davs_zk.Common.{
  ℕ, zero, suc, ◌+◌, ◌-◌, ◌*◌, ◌%◌, ◌^◌, Bool, true, false, Option, none, some, List, [], ◌∷◌, ◌++◌,
  ◌&&◌, ◌||◌, not, ◌==◌, nat_eq, list_eq, length, leb, ltb, if◌then◌else◌,
}
use web_davs_zk.Common.Sort.{sort_by}
use web_davs_zk.Common.Text.{Text, text}
use web_davs_zk.Common.Text.Split.{contains, ends_with}
use web_davs_zk.Io.{Os, IoError, Metadata, ok, err}
use web_davs_zk.Io
use web_davs_zk.Io.Paths.{join}
use web_davs_zk.Json.{Serde, text_field}
use web_davs_zk.Mover.Jobs.{next_u64}
use web_davs_zk.Mover.Names.{Env, Params, param, resolve_path, parse_search_query}
use web_davs_zk.Mover.Requests.{Reply}

abbrev pub max_results : ℕ
max_results = 1000

-- The texts that the source keeps in `status`.
pub data SearchStatus : Type 0 where
  search_running search_done : SearchStatus

abbrev pub status_text : SearchStatus → Text
status_text search_running = text "running"
status_text search_done = text "done"

-- The struct `Search`; its `error` is never set.
pub record Search (Value : Type 0) : Type 0 where
  pub root : Text
  pub q : Text
  pub status : SearchStatus
  pub done_dirs : ℕ
  pub matches : List Value
  pub truncated : Bool
  pub error : Option Text

abbrev pub new_search : {Value : Type 0} → Text → Text → Search Value
new_search root q = record {
  root = root;
  q = q;
  status = search_running;
  done_dirs = 0;
  matches = [];
  truncated = false;
  error = none;
}

-- `suffixes.iter().any(|s| lower.ends_with(s))`
abbrev ends_with_any : List Text → Text → Bool
ends_with_any [] lower = false
ends_with_any (s ∷ suffixes) lower = ends_with s lower || ends_with_any suffixes lower

-- `matched`, for the name in lower case.
unfoldable pub is_match : Text → List Text → Text → Bool
is_match sub [] lower = sub == [] || contains sub lower
is_match sub (s ∷ suffixes) lower = ends_with_any (s ∷ suffixes) lower

-- What one turn of the loop comes to: it goes on, or it breaks off.
pub data Turn (Value : Type 0) : Type 0 where
  go_on : Search Value → Turn Value
  break_off : Search Value → Turn Value

abbrev pub then_search :
    {Value : Type 0}
    → Option (Search Value)
    → (Search Value → Option (Search Value))
    → Option (Search Value)
then_search none k = none
then_search (some q) k = k q

abbrev pub count_dir : {Value : Type 0} → Search Value → Search Value
count_dir q = record q { done_dirs = (q.done_dirs + 1) % 2 ^ 64 }

module _ (os : Os) (j : Serde) (to_lowercase : Text → Text) (sub : Text)
    (suffixes : List Text) where
  open j use {Value, boolean, number, string, object}

  abbrev md_is_dir : Io.Result Metadata → Bool
  md_is_dir (err _) = false
  md_is_dir (ok md) = md.is_dir

  abbrev md_size : Io.Result Metadata → ℕ
  md_size (err _) = 0
  md_size (ok md) = if md.is_dir then 0 else md.len

  abbrev pub match_value : Text → Text → os.State → Value
  match_value dir name s =
      let fp = join dir name in
      let md = os.symlink_metadata fp s in
      object (
        (text "name", string name)
        ∷ (text "path", string fp)
        ∷ (text "is_dir", boolean (md_is_dir md))
        ∷ (text "size", number (md_size md))
        ∷ [])

  -- `if matched { ... }`
  abbrev pub add_match : Text → Text → os.State → Search Value → Turn Value
  add_match dir name s q =
      if is_match sub suffixes (to_lowercase name)
      then if leb max_results (length q.matches)
        then break_off (record q { truncated = true })
        else go_on (record q { matches = q.matches ++ match_value dir name s ∷ [] })
      else go_on q

  -- An entry that is a directory itself, and not a link to one, is walked.
  abbrev pub descend :
      (Text → Search Value → Option (Search Value))
      → Text
      → os.State
      → Search Value
      → Option (Search Value)
  descend walk path s q = if os.entry_is_dir path s then walk path (count_dir q) else some q

  abbrev pub after_turn :
      Turn Value → (Search Value → Option (Search Value)) → Option (Search Value)
  after_turn (break_off q) k = some q
  after_turn (go_on q) k = k q

  -- The loop over `rd.flatten()`.
  unfoldable pub search_entries :
      (Text → Search Value → Option (Search Value))
      → Text
      → os.State
      → List (Io.Result Text)
      → Search Value
      → Option (Search Value)
  search_entries walk dir s [] q = some q
  search_entries walk dir s (err _ ∷ names) q = search_entries walk dir s names q
  search_entries walk dir s (ok name ∷ names) q = after_turn (add_match dir name s q) (λ q'.
      then_search (descend walk (join dir name) s q') (λ q''. search_entries walk dir s names q''))

  abbrev pub search_dir :
      Io.Result (List (Io.Result Text))
      → (Text → Search Value → Option (Search Value))
      → Text
      → os.State
      → Search Value
      → Option (Search Value)
  search_dir (err _) walk dir s q = some q
  search_dir (ok names) walk dir s q = search_entries walk dir s names q

  -- `none` means that directories are nested deeper than the fuel.
  unfoldable pub walk_search : ℕ → Text → os.State → Search Value → Option (Search Value)
  unfolding search_entries
  walk_search zero dir s q = none
  walk_search (suc fuel) dir s q =
      let walked = search_dir (os.read_dir dir s) (λ path q'. walk_search fuel path s q') dir s q in
      if q.truncated || leb max_results (length q.matches) then some q else walked

-- The key of `sort_by`.
abbrev pub path_of : (j : Serde) → j.Value → Text
path_of j v = text_field j (text "path") v

abbrev pub finish_search : (j : Serde) → Search j.Value → Search j.Value
finish_search j q = record q { matches = sort_by (path_of j) q.matches; status = search_done }

unfoldable pub run_search :
    (os : Os) (j : Serde)
    → (Text → Text)
    → ℕ
    → Text
    → Text
    → os.State
    → Search j.Value
    → Option (Search j.Value)
run_search os j to_lowercase fuel root q s search =
    let (sub, suffixes) = parse_search_query to_lowercase q in
    Option.map (finish_search j) (walk_search os j to_lowercase sub suffixes fuel root s search)
