-- ===== src/Mover/Search/Bounds.antt =====
-- What a search of src/bin/file-mover.rs collects.
use mathlib.Core.Option
use web_davs_zk.Common.{
  ℕ, ◌≤◌, ◌≡◌, refl, true, Option, none, some, List, [], ◌∷◌, length, length-append, All,
  All-append, arith,
}
use web_davs_zk.Common.Sort.{IsSorted, sort_by-IsSorted, length-sort_by, All-sort_by}
use web_davs_zk.Common.Text.{Text}
use web_davs_zk.Io.{Os, IsEntry}
use web_davs_zk.Json.{Serde}
use web_davs_zk.Mover.Names.{parse_search_query}
use web_davs_zk.Mover.Search.{
  Search, search_done, new_search, is_match, match_value, walk_search, path_of, finish_search,
  run_search,
}
use web_davs_zk.Mover.Search.Rule.{Reached, Kept, walk_search-kept}

module _ (os : Os) (j : Serde) (to_lowercase : Text → Text) (s : os.State) where
  module _ (sub : Text) (suffixes : List Text) (root : Text) where
    -- A match is an entry of a directory that the search comes to, and its name matches.
    abbrev pub IsHit : j.Value → Type 0
    IsHit v =
        (dir : Text) × (name : Text) × Reached os s root dir
        × IsEntry os s dir name
        × (v ≡ match_value os j to_lowercase sub suffixes dir name s)
        × (is_match sub suffixes (to_lowercase name) ≡ true)

    abbrev pub IsBounded : Search j.Value → Type 0
    IsBounded q =
        (length q.matches ≤ 1000)
        × (q.truncated ≡ true → length q.matches ≡ 1000)
        × All IsHit q.matches

    IsBounded-Kept : Kept os j to_lowercase sub suffixes s root IsBounded
    IsBounded-Kept = record {
      add = λ dir name q reached entry hit room p. (
        omega (
          arith,
          length-append q.matches (match_value os j to_lowercase sub suffixes dir name s ∷ []),
        ),
        (λ cut. omega (arith, p.1 cut)),
        All-append IsHit q.matches _ p.2 ((dir, name, reached, entry, refl, hit), tt),
      );
      stop = λ q full p. (p.0, (λ cut. omega (arith, p.0)), p.2);
      count = λ q p. p;
    }

  finish_search-some :
      (w : Option (Search j.Value)) (r : Search j.Value)
      → Option.map (finish_search j) w ≡ some r
      → (q : Search j.Value) × (w ≡ some q) × (r ≡ finish_search j q)
  finish_search-some none r e = cc
  finish_search-some (some q) r e = (q, refl, cc)

  finish_search-IsBounded :
      (sub : Text) (suffixes : List Text) (root : Text) (q : Search j.Value)
      → IsBounded sub suffixes root q
      → let r = finish_search j q in
        (r.status ≡ search_done) × IsSorted (path_of j) r.matches × IsBounded sub suffixes root r
  finish_search-IsBounded sub suffixes root q p =
      let same = length-sort_by (path_of j) q.matches in
      (
        refl,
        sort_by-IsSorted (path_of j) q.matches,
        (
          omega (arith, same, p.0),
          (λ cut. omega (arith, same, p.1 cut)),
          All-sort_by (path_of j) (IsHit sub suffixes root) q.matches p.2,
        ),
      )

  -- A search that ends is done, its matches are in the order of their paths, there are at most 1000,
  -- and exactly 1000 if it says that it was cut short. Each match is an entry that the listing of a
  -- directory names, with its path below that directory, and its name in lower case has the text of
  -- the query, or one of its endings; the directory is the root of the search, or is come to from it
  -- through entries that are directories.
  pub run_search-IsBounded :
      (fuel : ℕ) (root q : Text) (r : Search j.Value)
      → run_search os j to_lowercase fuel root q s (new_search root q) ≡ some r
      → let (sub, suffixes) = parse_search_query to_lowercase q in
        (r.status ≡ search_done) × IsSorted (path_of j) r.matches × IsBounded sub suffixes root r
  unfolding run_search
  run_search-IsBounded fuel root q r e =
      let (sub, suffixes) = parse_search_query to_lowercase q in
      let (w, walked, same) =
        finish_search-some
          (walk_search os j to_lowercase sub suffixes fuel root s (new_search root q)) r e in
      let bounded =
        walk_search-kept os j to_lowercase sub suffixes s root (IsBounded sub suffixes root)
          (IsBounded-Kept sub suffixes root) fuel (new_search root q) w
          (omega arith, (λ cut. cc), tt) walked in
      rw same (finish_search-IsBounded sub suffixes root w bounded)
