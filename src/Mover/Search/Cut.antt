-- ===== src/Mover/Search/Cut.antt =====
-- How a search of src/bin/file-mover.rs can leave a directory out without saying so.
use mathlib.Core.List
use web_davs_zk.Common.{
  ℕ, suc, ◌+◌, ◌≤◌, ◌≡◌, refl, ◌∙◌, true, false, Option, some, List, [], ◌∷◌, ◌++◌, ◌||◌, leb,
  length, length-append, All, arith,
}
use web_davs_zk.Common.Sort.{length-sort_by}
use web_davs_zk.Common.Text.{Text}
use web_davs_zk.Io.{Os, Result, ok}
use web_davs_zk.Io.Paths.{join}
use web_davs_zk.Json.{Serde}
use web_davs_zk.Mover.Names.{parse_search_query}
use web_davs_zk.Mover.Search.{
  Search, count_dir, search_done, new_search, is_match, match_value, search_entries, walk_search,
  path_of, finish_search, run_search,
}

module _ (os : Os) (j : Serde) (to_lowercase : Text → Text) (s : os.State) where
  module _ (sub : Text) (suffixes : List Text) where
    -- The name matches, and is not that of a directory.
    abbrev pub IsPlainHit : Text → Text → Type 0
    IsPlainHit dir name =
        (is_match sub suffixes (to_lowercase name) ≡ true)
        × (os.entry_is_dir (join dir name) s ≡ false)

    -- The loop goes past names that match while there is room for them.
    search_entries-hits :
        (walk : Text → Search j.Value → Option (Search j.Value)) (dir : Text) (names : List Text)
        (rest : List (Result Text)) (q : Search j.Value)
        → All (IsPlainHit dir) names
        → length q.matches + length names ≤ 1000
        → q.truncated ≡ false
        → (q' : Search j.Value) × (length q'.matches ≡ length q.matches + length names)
          × (q'.truncated ≡ false)
          × (search_entries os j to_lowercase sub suffixes walk dir s (List.map ok names ++ rest) q
              ≡ search_entries os j to_lowercase sub suffixes walk dir s rest q')
    unfolding search_entries
    search_entries-hits walk dir [] rest q hits room whole = (q, omega arith, whole, refl)
    search_entries-hits walk dir (name ∷ names) rest q ((hit, plain), hits) room whole =
        let v = match_value os j to_lowercase sub suffixes dir name s in
        let more = length-append q.matches (v ∷ []) in
        let free : leb 1000 (length q.matches) ≡ false = ground arith in
        let (q', counted, whole', same) =
          search_entries-hits walk dir names rest (record q { matches = q.matches ++ v ∷ [] }) hits
            (omega (arith, more, room)) whole in
        rw (hit, free, plain) (q', omega (arith, more, counted), whole', same)

    -- A walk that has its 1000 matches leaves the last entry of a directory out.
    search_entries-full :
        (fuel : ℕ) (dir name : Text) (q : Search j.Value)
        → is_match sub suffixes (to_lowercase name) ≡ false
        → os.entry_is_dir (join dir name) s ≡ true
        → length q.matches ≡ 1000
        → search_entries os j to_lowercase sub suffixes
            (λ path q'. walk_search os j to_lowercase sub suffixes (suc fuel) path s q')
            dir
            s
            (ok name ∷ [])
            q
          ≡ some (count_dir q)
    unfolding search_entries walk_search
    search_entries-full fuel dir name q miss folder full =
        let enough : (q.truncated || leb 1000 (length q.matches)) ≡ true = ground arith in
        rw (miss, folder, enough) refl

    walk_search-full :
        (fuel : ℕ) (dir name root query : Text) (names : List Text)
        → os.read_dir dir s ≡ ok (List.map ok names ++ ok name ∷ [])
        → All (IsPlainHit dir) names
        → length names ≡ 1000
        → is_match sub suffixes (to_lowercase name) ≡ false
        → os.entry_is_dir (join dir name) s ≡ true
        → (q' : Search j.Value) × (length q'.matches ≡ 1000)
          × (q'.truncated ≡ false)
          × (walk_search os j to_lowercase sub suffixes
                (suc (suc fuel))
                dir
                s
                (new_search root query)
              ≡ some q')
    unfolding walk_search
    walk_search-full fuel dir name root query names listed hits many miss folder =
        let walk : Text → Search j.Value → Option (Search j.Value) =
          λ path q'. walk_search os j to_lowercase sub suffixes (suc fuel) path s q' in
        let (q', counted, whole, same) =
          search_entries-hits walk dir names (ok name ∷ []) (new_search root query) hits
            (omega (arith, many)) refl in
        (
          count_dir q',
          omega (arith, counted, many),
          whole,
          rw listed (
              same
              ∙ search_entries-full fuel dir name q' miss folder (omega (arith, counted, many))),
        )

  -- A directory that has 1000 files whose names match, and then a directory whose name does not,
  -- is searched up to the second one: what is in that is never looked at, and yet the search ends
  -- with 1000 matches and does not say that it was cut short.
  pub run_search_silently_cut :
      (fuel : ℕ) (root q name : Text) (names : List Text)
      → let (sub, suffixes) = parse_search_query to_lowercase q in
        os.read_dir root s ≡ ok (List.map ok names ++ ok name ∷ [])
        → All (IsPlainHit sub suffixes root) names
        → length names ≡ 1000
        → is_match sub suffixes (to_lowercase name) ≡ false
        → os.entry_is_dir (join root name) s ≡ true
        → (r : Search j.Value) × (run_search os j to_lowercase
              (suc (suc fuel))
              root
              q
              s
              (new_search root q)
            ≡ some r)
          × (r.status ≡ search_done)
          × (r.truncated ≡ false)
          × (length r.matches ≡ 1000)
  unfolding run_search
  run_search_silently_cut fuel root q name names listed hits many miss folder =
      let (sub, suffixes) = parse_search_query to_lowercase q in
      let (q', full, whole, same) =
        walk_search-full sub suffixes fuel root name root q names listed hits many miss folder in
      (finish_search j q', rw same refl, refl, whole, length-sort_by (path_of j) q'.matches ∙ full)
