-- ===== src/Mover/Search/Polling/Answers.antt =====
-- What a client of src/bin/file-mover.rs is told of the search that it has started.
use web_davs_zk.Common.{
  ℕ, ◌^◌, ◌<◌, ◌≡◌, refl, false, some, [], ◌∷◌, ◌++◌, ◌||◌, ◌==◌, nat_eq, list_eq, list_beq_iff,
  arith,
}
use web_davs_zk.Common.Text.{Text, text, show}
use web_davs_zk.Common.Text.Parse.{parse_u64-show}
use web_davs_zk.Io.{Os, ok}
use web_davs_zk.Json.{Serde, text_field}
use web_davs_zk.Mover.Names.{Env, Params, param, resolve_path}
use web_davs_zk.Mover.Search.{Search, new_search, run_search}
use web_davs_zk.Mover.Search.Polling.{
  Walk, Searches, get_search, search_update, get_search-insert_search, get_search-search_update,
  started, found, start_search, handle_search_start, handle_search, run_walk,
}

module _ (env : Env) (j : Serde) where
  open j use {Value}

  module _ (params : Params) (bytes : Text) (v : Value) (st : Searches Value) where
    abbrev root : Text
    root = text_field j (text "root") v

    abbrev q : Text
    q = text_field j (text "q") v

    abbrev id : ℕ
    id = st.next_search

    handle_search_start-started :
        j.from_str bytes ≡ some v
        → ¬ (root ≡ [])
        → ¬ (q ≡ [])
        → handle_search_start env j (ok bytes) st ≡ start_search env j root q st
    unfolding handle_search_start
    handle_search_start-started parsed some_root some_q =
        let both : (root == [] || q == []) ≡ false =
          ground (arith, list_beq_iff root [], list_beq_iff q []) in
        rw (parsed, both, handle_search_start) refl

    handle_search-get :
        (st' : Searches Value) (q' : Search Value)
        → param (text "id") params ≡ some (show id)
        → id < 2 ^ 64
        → get_search id st'.searches ≡ some q'
        → handle_search env j params st' ≡ found env j id q'
    unfolding handle_search
    handle_search-get st' q' asked small there =
        rw (asked, parse_u64-show id small, there, handle_search) refl

    module _ (os : Os) (to_lowercase : Text → Text) (fuel : ℕ) (s : os.State) where
      -- A request with a root and a query starts a search under the next id; who asks for that id, as
      -- it is printed, is shown the new search, and what the search came to once its walk has ended.
      pub handle_search_start-polled :
          (r : Search Value)
          → j.from_str bytes ≡ some v
          → ¬ (root ≡ [])
          → ¬ (q ≡ [])
          → id < 2 ^ 64
          → param (text "id") params ≡ some (show id)
          → run_search os j to_lowercase fuel (resolve_path env root) q s (new_search root q)
            ≡ some r
          → let (reply, st') = handle_search_start env j (ok bytes) st in
            let walk : Walk = record { id = id; root = resolve_path env root; q = q } in
            (reply ≡ started env j id)
            × (st'.walks ≡ st.walks ++ walk ∷ [])
            × (handle_search env j params st' ≡ found env j id (new_search root q))
            × ((st'' : Searches Value) × (run_walk env j os to_lowercase fuel walk s st'
                  ≡ some st'')
                × (handle_search env j params st'' ≡ found env j id r))
      unfolding run_walk
      handle_search_start-polled r parsed some_root some_q small asked walked =
          let (reply, st') = start_search env j root q st in
          let there = get_search-insert_search id (new_search root q) st.searches in
          let st'' : Searches Value = record st' {
            searches = search_update id (λ _. r) st'.searches;
          } in
          rw (handle_search_start-started parsed some_root some_q) (
            refl,
            refl,
            handle_search-get st' (new_search root q) asked small there,
            (
              st'',
              rw (there, walked, run_walk) refl,
              handle_search-get st'' r asked small
                  (get_search-search_update id (λ _. r) (new_search root q) st'.searches there),
            ),
          )
