-- ===== src/Json.antt =====
-- What the programs use of `serde_json`, which is a parameter: values, printing and parsing.
use web_davs_zk.Common.{
  ℕ, Bool, ◌≡◌, Option, none, some, List, [], ◌∷◌, ◌==◌, nat_eq, list_eq, if◌then◌else◌,
}
use web_davs_zk.Common.Text.{Text}
use mathlib.Core.Option

pub record Serde : Type 1 where
  pub Value : Type 0
  pub null : Value
  pub boolean : Bool → Value
  pub number : ℕ → Value
  pub string : Text → Value
  pub array : List Value → Value
  -- `json!` of an object, with its fields
  pub object : List (Text × Value) → Value
  pub get : Text → Value → Option Value
  pub as_str : Value → Option Text
  pub to_string : Value → Text
  -- `from_str` and `from_slice`
  pub from_str : Text → Option Value
  -- the message of its error
  pub parse_error : Text → Text

abbrev pub field : {A : Type 0} → Text → List (Text × A) → Option A
field k [] = none
field k ((j, v) ∷ fields) = let rest = field k fields in if j == k then some v else rest

-- What is relied on: printing is undone by parsing, a field of an object can be read, and a string.
pub record SerdeLaws (j : Serde) : Type 0 where
  pub from_str-to_string : (v : j.Value) → j.from_str (j.to_string v) ≡ some v
  pub get-object :
      (k : Text) (fields : List (Text × j.Value)) → j.get k (j.object fields) ≡ field k fields
  pub as_str-string : (t : Text) → j.as_str (j.string t) ≡ some t

-- `.get(k).and_then(|x| x.as_str())`
abbrev pub text_at : (j : Serde) → Text → j.Value → Option Text
text_at j k v = elim (j.get k v) [ none ↦ none | some x ↦ j.as_str x ]

-- the same with `.unwrap_or("")`
abbrev pub text_field : (j : Serde) → Text → j.Value → Text
text_field j k v = Option.get_or (text_at j k v) []
