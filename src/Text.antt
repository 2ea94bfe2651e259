-- ===== src/Text.antt =====
-- The string operations of the Rust standard library that the crates call, over a text as the list
-- of its code points. Every character that they search for is ASCII, so an index in code points
-- and one in bytes cut a text at the same place.
pub mod Split
pub mod Trim
use Prim.Native.Char.{code}
use Prim.Native.String.{String}
use zaku.Prelude.{
  leb, ◌+◌, ◌&&◌, ℕ, zero, suc, Bool, true, false, ◌||◌, Option, none, some, List, [], ◌∷◌, map,
  any, ◌==◌, if◌then◌else◌,
}
use mathlib.Core.Option

abbrev pub Str : Type 0
Str = List ℕ

-- A string literal, as its code points.
abbrev pub text : String → Str
text String.[] = []
text (String.◌∷◌ c s) = code c ∷ text s

abbrev pub is_empty : Str → Bool
is_empty [] = true
is_empty (c ∷ s) = false

-- Equality of two texts.
abbrev pub str_eq : Str → Str → Bool
str_eq [] [] = true
str_eq [] (d ∷ t) = false
str_eq (c ∷ s) [] = false
str_eq (c ∷ s) (d ∷ t) = if c == d then str_eq s t else false

-- `char::to_ascii_lowercase` and `str::eq_ignore_ascii_case`.
abbrev pub to_ascii_lowercase : ℕ → ℕ
to_ascii_lowercase c = if leb b'A' c && leb c b'Z' then c + 32 else c

abbrev pub eq_ignore_ascii_case : Str → Str → Bool
eq_ignore_ascii_case left right =
    str_eq (map to_ascii_lowercase left) (map to_ascii_lowercase right)

-- `str::strip_prefix` by a text.
abbrev pub strip_prefix : Str → Str → Option Str
strip_prefix [] s = some s
strip_prefix (p ∷ ps) [] = none
strip_prefix (p ∷ ps) (c ∷ s) = if p == c then strip_prefix ps s else none

-- `str::strip_suffix` by a set of characters: without the last character, if that is in the set.
abbrev pub strip_suffix : List ℕ → Str → Option Str
strip_suffix set [] = none
strip_suffix set (c ∷ []) = if any (c ==◌) set then some [] else none
strip_suffix set (c ∷ d ∷ s) = Option.map (c ∷◌) (strip_suffix set (d ∷ s))

-- `str::contains` by one character.
abbrev pub contains : ℕ → Str → Bool
contains sep = any (◌== sep)

-- `str::replace` of one character by another.
abbrev pub replace : ℕ → ℕ → Str → Str
replace from to = map (λ c. if c == from then to else c)

abbrev consed : ℕ → Str × Str → Str × Str
consed c (a, b) = (c ∷ a, b)

-- `str::split_once`: at the first separator.
abbrev pub split_once : ℕ → Str → Option (Str × Str)
split_once sep [] = none
split_once sep (c ∷ s) = if c == sep then some ([], s) else Option.map (consed c) (split_once sep s)

-- `str::rsplit_once`: at the last separator.
abbrev pub rsplit_once : ℕ → Str → Option (Str × Str)
rsplit_once sep [] = none
rsplit_once sep (c ∷ s) = elim (rsplit_once sep s) [
  | some (a, b) ↦ some (c ∷ a, b)
  | none ↦ if c == sep then some ([], s) else none
]

-- `str::rfind`: the index of the last separator.
abbrev pub rfind : ℕ → Str → Option ℕ
rfind sep [] = none
rfind sep (c ∷ s) = elim (rfind sep s) [
  | some i ↦ some (suc i)
  | none ↦ if c == sep then some zero else none
]

-- `String::truncate`.
abbrev pub truncate : ℕ → Str → Str
truncate zero s = []
truncate (suc n) [] = []
truncate (suc n) (c ∷ s) = c ∷ truncate n s

abbrev onto_head : ℕ → List Str → List Str
onto_head c [] = (c ∷ []) ∷ []
onto_head c (s ∷ ss) = (c ∷ s) ∷ ss

-- `str::split`: the pieces between the separators, of which there is at least one.
abbrev pub split : ℕ → Str → List Str
split sep [] = [] ∷ []
split sep (c ∷ s) = if c == sep then [] ∷ split sep s else onto_head c (split sep s)

-- `str::ends_with` by one character.
abbrev pub ends_with : ℕ → Str → Bool
ends_with c s = elim (strip_suffix (c ∷ []) s) [ some prefix ↦ true | none ↦ false ]
