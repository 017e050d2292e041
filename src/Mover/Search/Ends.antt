-- ===== src/Mover/Search/Ends.antt =====
-- A search of src/bin/file-mover.rs comes to its end.
use web_davs_zk.Common.{
  ℕ, zero, suc, ◌≡◌, refl, inl, inr, true, Bool-cases, Option, none, some, List, [], ◌∷◌, ◌||◌,
  length, leb, All,
}
use web_davs_zk.Common.Text.{Text}
use web_davs_zk.Io.{Os, Result, ok, err}
use web_davs_zk.Io.Paths.{join}
use web_davs_zk.Json.{Serde}
use web_davs_zk.Mover.Names.{parse_search_query}
use web_davs_zk.Mover.Search.{
  Search, Turn, go_on, break_off, max_results, then_search, count_dir, add_match, descend,
  after_turn, search_entries, search_dir, walk_search, finish_search, run_search,
}

module _ (os : Os) (s : os.State) where
  -- Directories, links to them not counted, are nested no deeper than the number.
  abbrev pub IsWithin : ℕ → Text → Type 0
  IsWithin zero dir = ⊥
  IsWithin (suc n) dir =
      (names : List (Result Text))
      → os.read_dir dir s ≡ ok names
      → All
          (λ entry.
            (name : Text)
            → entry ≡ ok name
            → os.entry_is_dir (join dir name) s ≡ true
            → IsWithin n (join dir name))
          names

  module _ (j : Serde) (to_lowercase : Text → Text) where
    abbrev Some : Option (Search j.Value) → Type 0
    Some w = (r : Search j.Value) × (w ≡ some r)

    module _ (sub : Text) (suffixes : List Text) where
      then_search-Some :
          (w : Option (Search j.Value)) (k : Search j.Value → Option (Search j.Value))
          → Some w
          → ((q : Search j.Value) → Some (k q))
          → Some (then_search w k)
      then_search-Some none k (r, e) g = cc
      then_search-Some (some q) k h g = g q

      after_turn-Some :
          (t : Turn j.Value) (k : Search j.Value → Option (Search j.Value))
          → ((q : Search j.Value) → Some (k q))
          → Some (after_turn os j to_lowercase sub suffixes t k)
      after_turn-Some (go_on q) k g = g q
      after_turn-Some (break_off q) k g = (q, refl)

      module _ (walk : Text → Search j.Value → Option (Search j.Value)) where
        descend-Some :
            (path : Text) (q : Search j.Value)
            → (os.entry_is_dir path s ≡ true → (q' : Search j.Value) → Some (walk path q'))
            → Some (descend os j to_lowercase sub suffixes walk path s q)
        descend-Some path q g = elim (Bool-cases (os.entry_is_dir path s)) [
          | inl folder ↦ rw folder (g folder (count_dir q))
          | inr other ↦ rw other (q, refl)
        ]

        abbrev WalksAll : Text → List (Result Text) → Type 0
        WalksAll dir names =
            All
              (λ entry.
                (name : Text)
                → entry ≡ ok name
                → os.entry_is_dir (join dir name) s ≡ true
                → (q : Search j.Value) → Some (walk (join dir name) q))
              names

        search_entries-Some :
            (dir : Text) (names : List (Result Text)) (q : Search j.Value)
            → WalksAll dir names
            → Some (search_entries os j to_lowercase sub suffixes walk dir s names q)
        unfolding search_entries
        search_entries-Some dir [] q g = (q, refl)
        search_entries-Some dir (err e ∷ names) q g = search_entries-Some dir names q g.1
        search_entries-Some dir (ok name ∷ names) q g =
            after_turn-Some (add_match os j to_lowercase sub suffixes dir name s q) _ (λ q'.
              then_search-Some _ _ (descend-Some (join dir name) q' (g.0 name refl))
                (λ q''. search_entries-Some dir names q'' g.1))

        search_dir-Some :
            (dir : Text) (answer : Result (List (Result Text))) (q : Search j.Value)
            → ((names : List (Result Text)) → answer ≡ ok names → WalksAll dir names)
            → Some (search_dir os j to_lowercase sub suffixes answer walk dir s q)
        search_dir-Some dir (err e) q g = (q, refl)
        search_dir-Some dir (ok names) q g = search_entries-Some dir names q (g names refl)

      All-map :
          {A : Type 0} {P Q : A → Type 0} (xs : List A)
          → ((x : A) → P x → Q x)
          → All P xs
          → All Q xs
      All-map [] f ps = tt
      All-map (x ∷ xs) f ps = (f x ps.0, All-map xs f ps.1)

      walk_search-Some :
          (fuel : ℕ) (dir : Text) (q : Search j.Value)
          → IsWithin fuel dir
          → Some (walk_search os j to_lowercase sub suffixes fuel dir s q)
      unfolding walk_search
      walk_search-Some zero dir q shallow = elim shallow [ ]
      walk_search-Some (suc fuel) dir q shallow =
          elim (Bool-cases (q.truncated || leb max_results (length q.matches))) [
            | inl enough ↦ rw (enough, walk_search) (q, refl)
            | inr room ↦
                rw (room, walk_search)
                  (search_dir-Some _ dir (os.read_dir dir s) q (λ names e.
                    All-map names
                      (λ entry below name at_name folder q'.
                        walk_search-Some fuel (join dir name) q' (below name at_name folder))
                      (shallow names e)))
          ]

    -- A search ends where directories are nested no deeper than the fuel.
    pub run_search-Some :
        (fuel : ℕ) (root q : Text) (search : Search j.Value)
        → IsWithin fuel root
        → Some (run_search os j to_lowercase fuel root q s search)
    unfolding run_search
    run_search-Some fuel root q search shallow =
        let (sub, suffixes) = parse_search_query to_lowercase q in
        let (w, e) = walk_search-Some sub suffixes fuel root search shallow in
        (finish_search j w, rw e refl)
