-- ===== src/Mover/Names.antt =====
-- Queries, URLs and destination names in src/bin/file-mover.rs. `percent_decode` and Unicode
-- `to_lowercase` are parameters.
pub mod Free
pub mod Mounts
pub mod Urls
use mathlib.Core.Option
use web_davs_zk.Common.{
  ℕ, zero, suc, ◌+◌, Bool, true, false, Option, none, some, List, [], ◌∷◌, ◌++◌, ◌&&◌, ◌||◌, ◌==◌,
  nat_eq, list_eq, take, drop, reverse, if◌then◌else◌,
}
use web_davs_zk.Common.Text.{Text, text, show}
use web_davs_zk.Common.Text.Trim.{trim, trim_start_matches}
use web_davs_zk.Common.Text.Split.{strip_prefix, starts_with, split, split_once, position}
use web_davs_zk.Io.{Os}
use web_davs_zk.Io.Paths.{join, parent, file_name, file_stem, extension, parts_of}
use web_davs_zk.Io.Paths

-- The environment variables that are read.
pub record Env : Type 0 where
  pub home : Option Text
  pub url_a : Option Text
  pub url_b : Option Text

unfoldable pub root_a : Env → Text
root_a env = join (Option.get_or env.home (text "/")) (text "webdav")

unfoldable pub root_b : Env → Text
root_b env = join (Option.get_or env.home (text "/")) (text "webdav-local")

-- A map with text keys; a later value takes the place of an earlier one.
abbrev pub Params : Type 0
Params = List (Text × Text)

unfoldable pub param : Text → Params → Option Text
param k [] = none
param k ((j, v) ∷ m) = if j == k then some v else param k m

unfoldable pub put_param : Text → Text → Params → Params
put_param k v [] = (k, v) ∷ []
put_param k v ((j, w) ∷ m) =
    let rest = put_param k v m in if j == k then (k, v) ∷ m else (j, w) ∷ rest

abbrev key_and_value : Text → Text × Text
key_and_value pair = Option.get_or (split_once b'=' pair) (pair, [])

module _ (percent_decode : Text → Text) where
  abbrev put_pair : Text → Params → Params
  put_pair pair m =
      let (k, v) = key_and_value pair in
      if pair == [] then m else put_param (percent_decode k) (percent_decode v) m

  -- The loop of `parse_query`.
  abbrev put_pairs : List Text → Params → Params
  put_pairs [] m = m
  put_pairs (pair ∷ pairs) m = put_pairs pairs (put_pair pair m)

  unfoldable pub parse_query : Text → Params
  unfolding put_param
  parse_query q = put_pairs (split b'&' q) []

-- The part after the last `@`.
abbrev pub after_last_at : Text → Text
after_last_at t = elim (position b'@' (reverse t)) [
  | none ↦ t
  | some i ↦ reverse (take i (reverse t))
]

abbrev first_or_empty : List Text → Text
first_or_empty [] = []
first_or_empty (x ∷ xs) = x

abbrev second_or_empty : List Text → Text
second_or_empty (x ∷ y ∷ xs) = y
second_or_empty _ = []

-- The authority, and the path from its first slash on.
abbrev pub authority_and_path : Text → Text × Text
authority_and_path t = elim (position b'/' t) [ none ↦ (t, []) | some i ↦ (take i t, drop i t) ]

abbrev pub without_scheme : Text → Option Text
without_scheme url = elim (strip_prefix (text "webdavs://") url) [
  | some rest ↦ some rest
  | none ↦ strip_prefix (text "webdav://") url
]

module _ (env : Env) where
  abbrev pub host_port : Text → Text
  host_port authority =
      let fields = split b':' authority in
      first_or_empty fields ++ (text ":" ++ second_or_empty fields)

  unfoldable pub root_for : Text → Option Text
  root_for hostport =
      if hostport == Option.get_or env.url_a (text "192.0.2.1:51337")
      then some (root_a env)
      else if hostport == Option.get_or env.url_b (text "192.0.2.2:51337")
      then some (root_b env)
      else none

  unfoldable pub below_root : Option Text → Text → Option Text
  below_root none path = none
  below_root (some root) path = some (join root (trim_start_matches b'/' path))

  unfoldable pub after_scheme : Text → Option Text
  after_scheme rest =
      let (authority, path) = authority_and_path (after_last_at rest) in
      below_root (root_for (host_port authority)) path

  unfoldable pub webdav_url_to_path : Text → Option Text
  unfolding after_scheme below_root root_for
  webdav_url_to_path url = elim (without_scheme url) [ none ↦ none | some rest ↦ after_scheme rest ]

  unfoldable pub resolve_path : Text → Text
  unfolding webdav_url_to_path
  resolve_path p =
      if starts_with (text "webdav://") p || starts_with (text "webdavs://") p
      then Option.get_or (webdav_url_to_path p) p
      else p

module _ (os : Os) where
  unfoldable pub dest_for : Text → Text → os.State → Text
  dest_for src dst s = if os.is_dir dst s then join dst (Option.get_or (file_name src) []) else dst

  abbrev dotted : Option Text → Text
  dotted none = []
  dotted (some e) = b'.' ∷ e

  abbrev suffixed : Text → ℕ → Text
  suffixed dst i =
      let ext = dotted (extension dst) in
      Option.get_or (file_stem dst) [] ++ (b'_' ∷ (show i ++ ext))

  -- `{stem}_{i}{ext}` beside `dst`
  unfoldable pub candidate : Text → ℕ → Text
  candidate dst i = join (Option.get_or (parent dst) []) (suffixed dst i)

  -- The loop of `free_dst`, with the rounds that are left.
  unfoldable pub try_free : ℕ → ℕ → Text → os.State → Text
  try_free zero i dst s = candidate dst 999
  try_free (suc left) i dst s =
      let next = try_free left (i + 1) dst s in
      if os.exists (candidate dst i) s then next else candidate dst i

  unfoldable pub free_dst : Text → os.State → Text
  free_dst dst s = if os.exists dst s then try_free 998 2 dst s else dst

unfoldable pub target_path : Text → Text → Text
target_path dst rel = if rel == [] then dst else join dst rel

abbrev first_part : List Text → Option Text
first_part [] = none
first_part (part ∷ parts) = some part

-- The first component below the mount that holds the path.
unfoldable pub path_drive : List Text → Text → Option Text
path_drive [] p = none
path_drive (m ∷ mounts) p = elim (Paths.strip_prefix m p) [
  | some rest ↦ first_part rest
  | none ↦ path_drive mounts p
]

module _ (to_lowercase : Text → Text) where
  abbrev add_token : Text → List Text × List Text → List Text × List Text
  add_token tok (subs, suffixes) =
      let t = trim tok in
      let rest = strip_prefix (text "*.") t in
      if t == [] then (subs, suffixes) else elim rest [
        | some sfx ↦ (subs, suffixes ++ (b'.' ∷ to_lowercase sfx) ∷ [])
        | none ↦ (subs ++ to_lowercase t ∷ [], suffixes)
      ]

  abbrev add_tokens : List Text → List Text × List Text → List Text × List Text
  add_tokens [] acc = acc
  add_tokens (tok ∷ toks) acc = add_tokens toks (add_token tok acc)

  -- `join(" ")`
  abbrev join_words : List Text → Text
  join_words [] = []
  join_words (w ∷ []) = w
  join_words (w ∷ v ∷ ws) = w ++ b' ' ∷ join_words (v ∷ ws)

  unfoldable pub parse_search_query : Text → Text × List Text
  parse_search_query q =
      let (subs, suffixes) = add_tokens (split b';' q) ([], []) in (join_words subs, suffixes)
