-- ===== src/Io/Paths.antt =====
-- `std::path::Path` on Unix. A path is its text; `==`, `starts_with` and `strip_prefix` go by
-- components. `parent` writes the components that are left with one slash between them, where Rust
-- keeps the text as it was.
use mathlib.Core.Option
use web_davs_zk.Common.{
  Bool, true, false, Option, none, some, List, [], ◌∷◌, ◌++◌, ◌&&◌, ◌||◌, not, ◌==◌, nat_eq,
  list_eq, bool_eq, bool_eq, if◌then◌else◌,
}
use web_davs_zk.Common.Text.{Text, text}
use web_davs_zk.Common.Text.Split.{split}

abbrev pub is_rooted : Text → Bool
is_rooted [] = false
is_rooted (c ∷ t) = c == b'/'

abbrev is_skipped : Text → Bool
is_skipped part = part == [] || part == text "."

unfoldable pub drop_skipped : List Text → List Text
drop_skipped [] = []
drop_skipped (part ∷ parts) =
    let rest = drop_skipped parts in if is_skipped part then rest else part ∷ rest

-- A leading `.` is a component, any other is not.
abbrev keep_first : List Text → List Text
keep_first [] = []
keep_first (part ∷ parts) =
    if part == text "." then part ∷ drop_skipped parts else drop_skipped (part ∷ parts)

-- The components after the root.
unfoldable pub parts_of : Text → List Text
unfolding drop_skipped split
parts_of p = keep_first (split b'/' p)

unfoldable pub same_path : Text → Text → Bool
same_path p q = is_rooted p == is_rooted q && parts_of p == parts_of q

-- `strip_prefix` on components: what is left.
unfoldable pub strip_parts : List Text → List Text → Option (List Text)
strip_parts [] parts = some parts
strip_parts (b ∷ base) [] = none
strip_parts (b ∷ base) (p ∷ parts) =
    let rest = strip_parts base parts in if b == p then rest else none

unfoldable pub strip_prefix : Text → Text → Option (List Text)
strip_prefix base p =
    if is_rooted base == is_rooted p then strip_parts (parts_of base) (parts_of p) else none

unfoldable pub starts_with : Text → Text → Bool
starts_with base p = elim (strip_prefix base p) [ none ↦ false | some _ ↦ true ]

abbrev last_is_slash : Text → Bool
last_is_slash [] = false
last_is_slash (c ∷ []) = c == b'/'
last_is_slash (c ∷ d ∷ t) = last_is_slash (d ∷ t)

-- `join`. An absolute second path replaces the first.
unfoldable pub join : Text → Text → Text
join p q = if is_rooted q then q else if p == [] || last_is_slash p then p ++ q else p ++ b'/' ∷ q

abbrev last_of : List Text → Option Text
last_of [] = none
last_of (x ∷ []) = some x
last_of (x ∷ y ∷ xs) = last_of (y ∷ xs)

abbrev init_of : List Text → List Text
init_of [] = []
init_of (x ∷ []) = []
init_of (x ∷ y ∷ xs) = x ∷ init_of (y ∷ xs)

abbrev is_normal : Text → Bool
is_normal part = not (part == text "." || part == text "..")

abbrev normal_only : Option Text → Option Text
normal_only none = none
normal_only (some part) = if is_normal part then some part else none

unfoldable pub file_name : Text → Option Text
file_name p = normal_only (last_of (parts_of p))

abbrev write_parts : List Text → Text
write_parts [] = []
write_parts (x ∷ []) = x
write_parts (x ∷ y ∷ xs) = x ++ b'/' ∷ write_parts (y ∷ xs)

abbrev parent_of : Bool → List Text → Option Text
parent_of rooted [] = none
parent_of rooted (x ∷ xs) =
    let rest = write_parts (init_of (x ∷ xs)) in some (if rooted then b'/' ∷ rest else rest)

unfoldable pub parent : Text → Option Text
parent p = parent_of (is_rooted p) (parts_of p)

-- The name before and after its last dot; a dot in front does not count.
abbrev split_last_dot : Text → Option (Text × Text)
split_last_dot [] = none
split_last_dot (c ∷ t) = elim (split_last_dot t) [
  | some (a, b) ↦ some (c ∷ a, b)
  | none ↦ if c == b'.' then some ([], t) else none
]

abbrev stem_and_extension : Text → Text × Option Text
stem_and_extension name = elim (split_last_dot name) [
  | none ↦ (name, none)
  | some ([], after) ↦ (name, none)
  | some (c ∷ before, after) ↦ (c ∷ before, some after)
]

unfoldable pub file_stem : Text → Option Text
file_stem p = Option.map (λ name. (stem_and_extension name).0) (file_name p)

unfoldable pub extension : Text → Option Text
extension p = Option.bind (file_name p) (λ name. (stem_and_extension name).1)
