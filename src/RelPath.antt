-- ===== src/RelPath.antt =====
-- crates/path/src/rel_path.rs: relative paths with `/` between their components. A `RelPath` is a
-- text with no invariant of its own, as in the source; the children prove what the constructors
-- and the accessors make of it.
pub mod Components
pub mod Stack
pub mod Unstack
pub mod Normalize
pub mod Trim
pub mod New
pub mod Unix
pub mod Access
pub mod Prefix
pub mod Join
mod Tests
use mathlib.Core.Option
use zaku.Prelude.{
  ℕ, zero, suc, Bool, true, false, not, ◌&&◌, ◌||◌, Option, none, some, List, [], ◌∷◌, ◌++◌, ◌+◌,
  any, length, find_map, ◌==◌, if◌then◌else◌, Result, ok, err, ◌>>=◌,
}
use zaku.Order.{Order, Ordering, ℕ_order, list_order}
use zaku.Text.{
  Str, is_empty, str_eq, strip_prefix as text_strip_prefix, strip_suffix, contains, replace,
  split_once, rsplit_once, rfind, truncate,
}
use zaku.FilePath.{PathStyle, posix, windows, is_windows, is_absolute}

abbrev pub RelPath : Type 0
RelPath = Str

abbrev pub RelPathBuf : Type 0
RelPathBuf = Str

-- `const SEPARATOR`, and the names `.` and `..`.
abbrev pub separator : ℕ
separator = b'/'

abbrev pub backslash : ℕ
backslash = b'\\'

abbrev pub dot : Str
dot = b'.' ∷ []

abbrev pub dot_dot : Str
dot_dot = b'.' ∷ b'.' ∷ []

pub data PathError : Type 0 where
  absolute_path not_relative not_borrowed : PathError

-- `Cow<RelPath>`: whether the constructor had to allocate.
pub data Cow : Type 0 where
  borrowed : RelPath → Cow
  owned : RelPathBuf → Cow

abbrev pub as_ref : Cow → RelPath
as_ref (borrowed s) = s
as_ref (owned s) = s

-- `RelPathComponents::next` and `next_back`: the component, and what is left of the iterator.
unfoldable pub next : Str → Option (Str × Str)
next s = elim (split_once separator s) [
  | some (head, tail) ↦ some (head, tail)
  | none ↦ if is_empty s then none else some (s, [])
]

unfoldable pub next_back : Str → Option (Str × Str)
next_back s = elim (rsplit_once separator s) [
  | some (head, tail) ↦ some (tail, head)
  | none ↦ if is_empty s then none else some (s, [])
]

-- All that an iterator yields. Each step takes at least one character, so the length is fuel enough.
unfoldable pub collect : ℕ → (Str → Option (Str × Str)) → Str → List Str
collect zero step s = []
collect (suc fuel) step s = elim (step s) [
  | none ↦ []
  | some (component, rest) ↦ component ∷ collect fuel step rest
]

unfoldable pub components : RelPath → List Str
components s = collect (length s) next s

-- `components().rev()`
unfoldable pub components_rev : RelPath → List Str
components_rev s = collect (length s) next_back s

-- `RelPathBuf::pop` and `push`.
unfoldable pub pop : RelPathBuf → RelPathBuf × Bool
pop buf = elim (rfind separator buf) [
  | some index ↦ (truncate index buf, true)
  | none ↦ if not (is_empty buf) then ([], true) else (buf, false)
]

unfoldable pub push : RelPathBuf → RelPath → RelPathBuf
push buf path = (if not (is_empty buf) then buf ++ separator ∷ [] else buf) ++ path

-- The two loops of `RelPath::new` that strip its ends; the length of the path is fuel enough.
abbrev pub prefixes : PathStyle → List Str
prefixes posix = (b'.' ∷ b'/' ∷ []) ∷ []
prefixes windows = (b'.' ∷ b'/' ∷ []) ∷ (b'.' ∷ b'\\' ∷ []) ∷ []

abbrev pub suffixes : PathStyle → List ℕ
suffixes posix = b'/' ∷ []
suffixes windows = b'/' ∷ b'\\' ∷ []

abbrev pub find_prefix : PathStyle → Str → Option Str
find_prefix style path = find_map (λ prefix. text_strip_prefix prefix path) (prefixes style)

unfoldable pub strip_prefixes : ℕ → PathStyle → Str → Str
strip_prefixes zero style path = path
strip_prefixes (suc fuel) style path = elim (find_prefix style path) [
  | some stripped_path ↦ strip_prefixes fuel style stripped_path
  | none ↦ path
]

unfoldable pub strip_suffixes : ℕ → PathStyle → Str → Str
strip_suffixes zero style path = path
strip_suffixes (suc fuel) style path = elim (strip_suffix (suffixes style) path) [
  | some prefix ↦ elim (is_empty prefix) [ true ↦ path | false ↦ strip_suffixes fuel style prefix ]
  | none ↦ path
]

-- Backslashes become slashes on Windows, in a new buffer.
unfoldable pub with_slashes : PathStyle → Str → Cow
with_slashes style path =
    if is_windows style && contains backslash path
    then owned (replace backslash separator path)
    else borrowed path

abbrev pub is_special : Str → Bool
is_special component = is_empty component || str_eq component dot || str_eq component dot_dot

-- One round of the loop that normalizes, and the loop.
unfoldable pub normalize_component : RelPathBuf → Str → Result PathError RelPathBuf
normalize_component normalized component =
    if is_empty component || str_eq component dot
    then ok normalized
    else if str_eq component dot_dot
    then (let (popped, done) = pop normalized in if done then ok popped else err not_relative)
    else ok (push normalized component)

unfoldable pub normalize : RelPathBuf → List Str → Result PathError RelPathBuf
normalize normalized [] = ok normalized
normalize normalized (component ∷ rest) =
    normalize_component normalized component >>= λ next_normalized. normalize next_normalized rest

unfoldable pub finish : Cow → Result PathError Cow
finish result =
    if any is_special (components (as_ref result))
    then (normalize [] (components (as_ref result)) >>= λ normalized. ok (owned normalized))
    else ok result

unfoldable pub trimmed : Str → PathStyle → Str
trimmed path style =
    let stripped = strip_prefixes (length path) style path in
    strip_suffixes (length stripped) style stripped

-- `RelPath::new`, from a path that is valid UTF-8.
unfoldable pub new : Str → PathStyle → Result PathError Cow
new path style =
    if is_absolute (trimmed path style) style
    then err absolute_path
    else finish (with_slashes style (trimmed path style))

only_borrowed : Cow → Result PathError RelPath
only_borrowed (borrowed path) = ok path
only_borrowed (owned path) = err not_borrowed

-- `RelPath::unix`.
unfoldable pub unix : Str → Result PathError RelPath
unfolding only_borrowed
unix path = new path posix >>= only_borrowed

-- Accessors.
unfoldable pub file_name : RelPath → Option Str
file_name s = Option.map (λ (p : Str × Str). p.0) (next_back s)

unfoldable pub parent : RelPath → Option RelPath
parent s = Option.map (λ (p : Str × Str). p.1) (next_back s)

-- `Err(StripPrefixError)` is `none`. What follows the prefix is a separator or nothing.
abbrev pub strip_separator : Str → Option RelPath
strip_separator suffix = elim (text_strip_prefix (separator ∷ []) suffix) [
  | some rest ↦ some rest
  | none ↦ if is_empty suffix then some [] else none
]

unfoldable pub strip_prefix : RelPath → RelPath → Option RelPath
strip_prefix self other =
    if is_empty other
    then some self
    else elim (text_strip_prefix other self) [ none ↦ none | some suffix ↦ strip_separator suffix ]

unfoldable pub starts_with : RelPath → RelPath → Bool
starts_with self other = elim (strip_prefix self other) [ some rest ↦ true | none ↦ false ]

-- The number of separators, and one.
abbrev pub count_char : ℕ → Str → ℕ
count_char c [] = 0
count_char c (d ∷ s) = (if d == c then 1 else 0) + count_char c s

unfoldable pub component_count : RelPath → ℕ
component_count s = count_char separator s + 1

unfoldable pub join : RelPath → RelPath → RelPath
join self other =
    if is_empty self then other else if is_empty other then self else self ++ separator ∷ other

unfoldable pub display : RelPath → PathStyle → Str
display s windows = if contains separator s then replace separator backslash s else s
display s posix = s

-- `RelPathAncestors::next`, and all that it yields; its fuel is two more than the length.
unfoldable pub next_ancestor : Option Str → Option (RelPath × Option Str)
next_ancestor none = none
next_ancestor (some result) = elim (rsplit_once separator result) [
  | some (ancestor, name) ↦ some (result, some ancestor)
  | none ↦ if not (is_empty result) then some (result, some []) else some (result, none)
]

unfoldable pub collect_ancestors : ℕ → Option Str → List RelPath
collect_ancestors zero state = []
collect_ancestors (suc fuel) state = elim (next_ancestor state) [
  | none ↦ []
  | some (ancestor, rest) ↦ ancestor ∷ collect_ancestors fuel rest
]

unfoldable pub ancestors : RelPath → List RelPath
ancestors s = collect_ancestors (suc (suc (length s))) (some s)

-- `Ord::cmp`: the components in lexicographic order, each by its characters.
abbrev pub components_order : Order (List Str)
components_order = list_order (list_order ℕ_order)

unfoldable pub cmp : RelPath → RelPath → Ordering
cmp self other = components_order.cmp (components self) (components other)
