-- ===== src/Mover/Search/Polling.antt =====
-- The requests of src/bin/file-mover.rs that start a search and read how far it has come.
pub mod Answers
use mathlib.Core.Option
use web_davs_zk.Common.{
  ℕ, suc, ◌+◌, ◌^◌, ◌<◌, ◌≡◌, refl, sym, ap, ◌∙◌, inl, inr, Bool, true, false, Bool-cases, Option,
  none, some, List, [], ◌∷◌, ◌++◌, ◌||◌, ◌==◌, nat_eq, nat_beq_iff, list_eq, list_beq_iff,
  if◌then◌else◌, arith,
}
use web_davs_zk.Common.Text.{Text, text, show}
use web_davs_zk.Common.Text.Parse.{parse_u64, parse_u64-show}
use web_davs_zk.Io.{Os, Result, ok, err}
use web_davs_zk.Json.{Serde, text_field}
use web_davs_zk.Mover.Jobs.{next_u64}
use web_davs_zk.Mover.Names.{Env, Params, param, resolve_path}
use web_davs_zk.Mover.Requests.{Reply}
use web_davs_zk.Mover.Search.{Search, status_text, new_search, run_search}

-- A walk that is given to a thread: `run_search` with its arguments.
pub record Walk : Type 0 where
  pub id : ℕ
  pub root : Text
  pub q : Text

-- `NEXT_SEARCH`, `SEARCHES` and the walks that were started.
pub record Searches (Value : Type 0) : Type 0 where
  pub next_search : ℕ
  pub searches : List (ℕ × Search Value)
  pub walks : List Walk

module _ {Value : Type 0} where
  unfoldable pub get_search : ℕ → List (ℕ × Search Value) → Option (Search Value)
  get_search id [] = none
  get_search id ((i, q) ∷ m) = if i == id then some q else get_search id m

  unfoldable pub insert_search :
      ℕ → Search Value → List (ℕ × Search Value) → List (ℕ × Search Value)
  insert_search id q [] = (id, q) ∷ []
  insert_search id q ((i, p) ∷ m) =
      let rest = insert_search id q m in if i == id then (id, q) ∷ m else (i, p) ∷ rest

  unfoldable pub search_update :
      ℕ → (Search Value → Search Value) → List (ℕ × Search Value) → List (ℕ × Search Value)
  search_update id f [] = []
  search_update id f ((i, q) ∷ m) =
      let rest = search_update id f m in if i == id then (i, f q) ∷ m else (i, q) ∷ rest

  pub get_search-insert_search :
      (id : ℕ) (q : Search Value) (m : List (ℕ × Search Value))
      → get_search id (insert_search id q m) ≡ some q
  unfolding get_search insert_search
  get_search-insert_search id q [] = ground (arith)
  get_search-insert_search id q ((i, p) ∷ m) = ground (arith, get_search-insert_search id q m)

  pub get_search-search_update :
      (id : ℕ) (f : Search Value → Search Value) (q : Search Value) (m : List (ℕ × Search Value))
      → get_search id m ≡ some q
      → get_search id (search_update id f m) ≡ some (f q)
  unfolding get_search search_update
  get_search-search_update id f q [] e = cc
  get_search-search_update id f q ((i, p) ∷ m) e = ground (arith, get_search-search_update id f q m)

module _ (env : Env) (j : Serde) where
  open j use {Value, null, boolean, number, string, array, object}

  abbrev pub search_error : ℕ → Text → Reply Value
  search_error status message = record {
    status = status;
    body = object ((text "error", string message) ∷ []);
  }

  abbrev pub started : ℕ → Reply Value
  started id = record { status = 202; body = object ((text "search_id", number id) ∷ []) }

  abbrev error_value : Option Text → Value
  error_value none = null
  error_value (some e) = string e

  abbrev pub found : ℕ → Search Value → Reply Value
  found id q = record {
    status = 200;
    body = object (
        (text "search_id", number id)
        ∷ (text "root", string q.root)
        ∷ (text "q", string q.q)
        ∷ (text "status", string (status_text q.status))
        ∷ (text "done_dirs", number q.done_dirs)
        ∷ (text "matches", array q.matches)
        ∷ (text "truncated", boolean q.truncated)
        ∷ (text "error", error_value q.error)
        ∷ []);
  }

  -- The last part of `handle_search_start`, from `fetch_add` on.
  abbrev pub start_search : Text → Text → Searches Value → Reply Value × Searches Value
  start_search root q st =
      let id = st.next_search in
      (
        started id,
        record {
          next_search = next_u64 id;
          searches = insert_search id (new_search root q) st.searches;
          walks = st.walks ++ record { id = id; root = resolve_path env root; q = q } ∷ [];
        },
      )

  abbrev search_value : Value → Searches Value → Reply Value × Searches Value
  search_value v st =
      let root = text_field j (text "root") v in
      let q = text_field j (text "q") v in
      if root == [] || q == []
      then (search_error 400 (text "bad request"), st)
      else start_search root q st

  unfoldable pub handle_search_start : Result Text → Searches Value → Reply Value × Searches Value
  handle_search_start (err e) st = (search_error 400 e.message, st)
  handle_search_start (ok bytes) st = elim (j.from_str bytes) [
    | none ↦ (search_error 400 (text "bad json"), st)
    | some v ↦ search_value v st
  ]

  abbrev id_of : Option Text → Option ℕ
  id_of none = none
  id_of (some t) = parse_u64 t

  abbrev found_search : ℕ → Option (Search Value) → Reply Value
  found_search id none = search_error 404 (text "no such search")
  found_search id (some q) = found id q

  unfoldable pub handle_search : Params → Searches Value → Reply Value
  unfolding get_search
  handle_search params st = elim (id_of (param (text "id") params)) [
    | none ↦ search_error 400 (text "missing id")
    | some id ↦ found_search id (get_search id st.searches)
  ]

  -- The thread of a walk, to its end: it works on the record under its id, if there is one.
  unfoldable pub run_walk :
      (os : Os) → (Text → Text) → ℕ → Walk → os.State → Searches Value → Option (Searches Value)
  unfolding get_search search_update
  run_walk os to_lowercase fuel w s st = elim (get_search w.id st.searches) [
    | none ↦ some st
    | some q ↦
        Option.map (λ r. record st { searches = search_update w.id (λ _. r) st.searches })
          (run_search os j to_lowercase fuel w.root w.q s q)
  ]
