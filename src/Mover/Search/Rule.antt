-- ===== src/Mover/Search/Rule.antt =====
-- The rule for invariants of `walk_search` in src/bin/file-mover.rs.
use mathlib.Core.List.{append_assoc}
use web_davs_zk.Common.{
  ℕ, zero, suc, ◌≤◌, ◌<◌, ◌≡◌, refl, ap, sym, ◌∙◌, inl, inr, true, Bool-cases, Option, none, some,
  List, [], ◌∷◌, ◌++◌, ◌||◌, length, leb, arith,
}
use web_davs_zk.Common.Text.{Text}
use web_davs_zk.Io.{Os, ok, err, IsEntry}
use web_davs_zk.Io
use web_davs_zk.Io.Paths.{join}
use web_davs_zk.Json.{Serde}
use web_davs_zk.Mover.Search.{
  Search, Turn, go_on, break_off, max_results, is_match, then_search, count_dir, match_value,
  add_match, descend, after_turn, search_entries, search_dir, walk_search,
}

-- A directory that a search from `root` comes to: the root, or an entry of such a directory that is a
-- directory itself.
pub data Reached (os : Os) (s : os.State) (root : Text) : Text → Type 0 where
  at_root : Reached os s root root
  below :
      (dir name : Text)
      → Reached os s root dir
      → IsEntry os s dir name
      → os.entry_is_dir (join dir name) s ≡ true
      → Reached os s root (join dir name)

-- What the walk does to a search, one thing at a time: it adds a match, it finds that there are
-- enough, or it counts a directory. `P` is kept by each.
pub record Kept (os : Os) (j : Serde) (to_lowercase : Text → Text) (sub : Text)
    (suffixes : List Text) (s : os.State) (root : Text) (P : Search j.Value → Type 0) : Type 0 where
  pub add :
      (dir name : Text) (q : Search j.Value)
      → Reached os s root dir
      → IsEntry os s dir name
      → is_match sub suffixes (to_lowercase name) ≡ true
      → length q.matches < 1000
      → P q
      → P (record q {
        matches = q.matches ++ match_value os j to_lowercase sub suffixes dir name s ∷ [];
      })
  pub stop :
      (q : Search j.Value) → 1000 ≤ length q.matches → P q → P (record q { truncated = true })
  pub count : (q : Search j.Value) → P q → P (count_dir q)

module _ (os : Os) (j : Serde) (to_lowercase : Text → Text) (sub : Text) (suffixes : List Text)
    (s : os.State) (root : Text) (P : Search j.Value → Type 0)
    (kept : Kept os j to_lowercase sub suffixes s root P) where
  abbrev Keeps : Option (Search j.Value) → Type 0
  Keeps none = Unit {0}
  Keeps (some q) = P q

  abbrev KeepsTurn : Turn j.Value → Type 0
  KeepsTurn (go_on q) = P q
  KeepsTurn (break_off q) = P q

  add_match-KeepsTurn :
      (dir name : Text) (q : Search j.Value)
      → Reached os s root dir
      → IsEntry os s dir name
      → P q
      → KeepsTurn (add_match os j to_lowercase sub suffixes dir name s q)
  add_match-KeepsTurn dir name q reached entry p =
      elim (Bool-cases (is_match sub suffixes (to_lowercase name))) [
        | inr other ↦ rw other p
        | inl yes_match ↦ elim (Bool-cases (leb max_results (length q.matches))) [
          | inl full ↦ rw yes_match (rw full (kept.stop q (ground arith) p))
          | inr room ↦
              rw yes_match (rw room (kept.add dir name q reached entry yes_match (ground arith) p))
        ]
      ]

  then_search-Keeps :
      (w : Option (Search j.Value)) (k : Search j.Value → Option (Search j.Value))
      → Keeps w
      → ((q : Search j.Value) → P q → Keeps (k q))
      → Keeps (then_search w k)
  then_search-Keeps none k h g = tt
  then_search-Keeps (some q) k h g = g q h

  after_turn-Keeps :
      (t : Turn j.Value) (k : Search j.Value → Option (Search j.Value))
      → KeepsTurn t
      → ((q : Search j.Value) → P q → Keeps (k q))
      → Keeps (after_turn os j to_lowercase sub suffixes t k)
  after_turn-Keeps (go_on q) k p g = g q p
  after_turn-Keeps (break_off q) k p g = p

  module _ (walk : Text → Search j.Value → Option (Search j.Value))
      (walk-Keeps : (path : Text) (q : Search j.Value)
        → Reached os s root path
        → P q
        → Keeps (walk path q))
      (dir : Text) (reached : Reached os s root dir) where
    descend-Keeps :
        (name : Text) (q : Search j.Value)
        → IsEntry os s dir name
        → P q
        → Keeps (descend os j to_lowercase sub suffixes walk (join dir name) s q)
    descend-Keeps name q entry p = elim (Bool-cases (os.entry_is_dir (join dir name) s)) [
      | inl folder ↦ rw folder (
          walk-Keeps (join dir name) (count_dir q) (below dir name reached entry folder)
            (kept.count q p))
      | inr other ↦ rw other p
    ]

    search_entries-Keeps :
        (seen names : List (Io.Result Text)) (q : Search j.Value)
        → os.read_dir dir s ≡ ok (seen ++ names)
        → P q
        → Keeps (search_entries os j to_lowercase sub suffixes walk dir s names q)
    unfolding search_entries
    search_entries-Keeps seen [] q r p = p
    search_entries-Keeps seen (err e ∷ names) q r p =
        search_entries-Keeps (seen ++ err e ∷ []) names q
          (r ∙ ap ok (sym (append_assoc seen (err e ∷ []) names))) p
    search_entries-Keeps seen (ok name ∷ names) q r p =
        let r' = r ∙ ap ok (sym (append_assoc seen (ok name ∷ []) names)) in
        after_turn-Keeps (add_match os j to_lowercase sub suffixes dir name s q) _
          (add_match-KeepsTurn dir name q reached (seen, names, r) p)
          (λ q' p'.
            then_search-Keeps _ _ (descend-Keeps name q' (seen, names, r) p')
              (λ q'' p''. search_entries-Keeps (seen ++ ok name ∷ []) names q'' r' p''))

    search_dir-Keeps :
        (answer : Io.Result (List (Io.Result Text))) (q : Search j.Value)
        → os.read_dir dir s ≡ answer
        → P q
        → Keeps (search_dir os j to_lowercase sub suffixes answer walk dir s q)
    search_dir-Keeps (err e) q r p = p
    search_dir-Keeps (ok names) q r p = search_entries-Keeps [] names q r p

  walk_search-Keeps :
      (fuel : ℕ) (dir : Text) (q : Search j.Value)
      → Reached os s root dir
      → P q
      → Keeps (walk_search os j to_lowercase sub suffixes fuel dir s q)
  unfolding walk_search
  walk_search-Keeps zero dir q reached p = tt
  walk_search-Keeps (suc fuel) dir q reached p =
      elim (Bool-cases (q.truncated || leb max_results (length q.matches))) [
        | inl enough ↦ rw (enough, walk_search) p
        | inr room ↦
            rw (room, walk_search)
              (search_dir-Keeps _
                (λ path q' reached' p'. walk_search-Keeps fuel path q' reached' p') dir reached
                (os.read_dir dir s) q refl p)
      ]

  pub walk_search-kept :
      (fuel : ℕ) (q q' : Search j.Value)
      → P q
      → walk_search os j to_lowercase sub suffixes fuel root s q ≡ some q'
      → P q'
  walk_search-kept fuel q q' p e = rw e at (walk_search-Keeps fuel root q at_root p)
