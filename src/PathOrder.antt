-- ===== src/PathOrder.antt =====
-- crates/path/src/path.rs: the order of relative paths that the project panel and the git panel show.
-- The components of an iterator are a list here: what is left of it is empty iff it yields no more.
pub mod Reversed
pub mod Ties
mod Tests
use Prim.Native.Nat.{compare}
use zaku.Prelude.{
  ℕ, Bool, true, false, not, ◌&&◌, Option, none, some, List, [], ◌∷◌, get_elem?, if◌then◌else◌,
}
use zaku.Order.{Ordering, then_with, reversed}
use zaku.Text.{Str, is_empty, str_eq, rsplit_once}
use zaku.NaturalSort.{str_cmp, natural_sort, natural_sort_no_tiebreak}
use zaku.Text.{eq_ignore_ascii_case}
use zaku.RelPath.{RelPath, components}

pub data SortOrder : Type 0 where
  default upper lower unicode : SortOrder

pub data SortMode : Type 0 where
  directories_first mixed files_first : SortMode

-- The tables of Unicode in the standard library: `char::is_lowercase`, `char::is_uppercase` and
-- `str::to_lowercase`.
pub record Unicode : Type 0 where
  pub is_lowercase : ℕ → Bool
  pub is_uppercase : ℕ → Bool
  pub to_lowercase : Str → Str

abbrev pub is_directories_first : SortMode → Bool
is_directories_first directories_first = true
is_directories_first _ = false

-- `Ord` of `bool`, `u8::from(bool)` and `Option::unwrap_or_default`.
abbrev pub from_bool : Bool → ℕ
from_bool true = 1
from_bool false = 0

abbrev pub bool_cmp : Bool → Bool → Ordering
bool_cmp left right = compare (from_bool left) (from_bool right)

abbrev pub unwrap_or_default : Option Str → Str
unwrap_or_default none = []
unwrap_or_default (some s) = s

abbrev pub is_nil {ℓ} : {A : Type ℓ} → List A → Bool
is_nil [] = true
is_nil (x ∷ xs) = false

unfoldable pub stem_and_extension : Str → Option Str × Option Str
stem_and_extension file_name =
    if is_empty file_name then (none, none) else elim (rsplit_once b'.' file_name) [
      | none ↦ (some file_name, none)
      | some (before, after) ↦
          if is_empty before then (some file_name, none) else (some before, some after)
    ]

unfoldable pub compare_strings : SortOrder → Str → Str → Ordering
compare_strings unicode left right = str_cmp left right
compare_strings _ left right = natural_sort left right

unfoldable pub compare_strings_no_tiebreak : SortOrder → Str → Str → Ordering
compare_strings_no_tiebreak unicode left right = str_cmp left right
compare_strings_no_tiebreak _ left right = natural_sort_no_tiebreak left right

abbrev pub compare_names : SortMode → SortOrder → Str → Str → Ordering
compare_names directories_first order left right = compare_strings order left right
compare_names _ order left right = compare_strings_no_tiebreak order left right

abbrev pub file_dir_ordering : SortMode → Bool → Bool → Ordering
file_dir_ordering directories_first left_leaf_file right_leaf_file =
    bool_cmp left_leaf_file right_leaf_file
file_dir_ordering files_first left_leaf_file right_leaf_file =
    bool_cmp right_leaf_file left_leaf_file
file_dir_ordering mixed left_leaf_file right_leaf_file = Ordering.eq

-- What decides about paths whose components compare as equal.
abbrev pub final_tiebreak : SortMode → SortOrder → RelPath → RelPath → Ordering
final_tiebreak mode order left_path right_path =
    if not (is_directories_first mode) && not (str_eq left_path right_path)
    then compare_strings order left_path right_path
    else Ordering.eq

-- A file after a directory of the same name but for the case.
abbrev pub mixed_ordering : SortMode → Bool → Bool → Str → Str → Ordering
mixed_ordering mixed true false left right =
    if eq_ignore_ascii_case left right then Ordering.gt else Ordering.eq
mixed_ordering mixed false true left right =
    if eq_ignore_ascii_case left right then Ordering.lt else Ordering.eq
mixed_ordering _ _ _ left right = Ordering.eq

-- The key of a component and its extension.
abbrev pub key_and_extension : Bool → Str → Option Str × Option Str
key_and_extension true component = stem_and_extension component
key_and_extension false component = (some component, none)

module _ (tables : Unicode) where
  unfoldable pub case_group_key : Str → SortOrder → ℕ
  case_group_key [] order = 0
  case_group_key (first ∷ name) upper = from_bool (tables.is_lowercase first)
  case_group_key (first ∷ name) lower = from_bool (tables.is_uppercase first)
  case_group_key (first ∷ name) _ = 0

  abbrev pub extension_name : SortOrder → Option Str → Str
  extension_name unicode extension = unwrap_or_default extension
  extension_name _ extension = tables.to_lowercase (unwrap_or_default extension)

  abbrev pub compare_extensions : SortOrder → Option Str → Option Str → Ordering
  compare_extensions order left right =
      str_cmp (extension_name order left) (extension_name order right)

  module _ (mode : SortMode) (order : SortOrder) where
    abbrev pub compare_keys : Bool → Bool → Option Str → Option Str → Ordering → Ordering
    compare_keys left_leaf_file right_leaf_file (some left) (some right) extensions =
        then_with
          (then_with
            (then_with (compare (case_group_key left order) (case_group_key right order))
              (compare_names mode order left right))
            (mixed_ordering mode left_leaf_file right_leaf_file left right))
          (if left_leaf_file && right_leaf_file then extensions else Ordering.eq)
    compare_keys left_leaf_file right_leaf_file (some left) none extensions = Ordering.gt
    compare_keys left_leaf_file right_leaf_file none (some right) extensions = Ordering.lt
    compare_keys left_leaf_file right_leaf_file none none extensions = Ordering.eq

    -- One component of each path, of which the last of a file's path is a file.
    unfoldable pub compare_component : Bool → Bool → Str → Str → Ordering
    compare_component left_leaf_file right_leaf_file left_component right_component =
        let (left_key, left_extension) = key_and_extension left_leaf_file left_component in
        let (right_key, right_extension) = key_and_extension right_leaf_file right_component in
        then_with (file_dir_ordering mode left_leaf_file right_leaf_file) (
          compare_keys left_leaf_file right_leaf_file left_key right_key
            (compare_extensions order left_extension right_extension))

    -- The loop over the components; `tie` is what it returns at the end of both.
    abbrev pub compare_components : Ordering → Bool → Bool → List Str → List Str → Ordering
    compare_components tie left_is_file right_is_file [] [] = tie
    compare_components tie left_is_file right_is_file [] (right ∷ right_rest) = Ordering.lt
    compare_components tie left_is_file right_is_file (left ∷ left_rest) [] = Ordering.gt
    compare_components tie left_is_file right_is_file (left ∷ left_rest) (right ∷ right_rest) =
        then_with
          (compare_component (left_is_file && is_nil left_rest) (right_is_file && is_nil right_rest)
            left right)
          (compare_components tie left_is_file right_is_file left_rest right_rest)

    unfoldable pub compare_rel_paths_by : RelPath × Bool → RelPath × Bool → Ordering
    compare_rel_paths_by (left_path, left_is_file) (right_path, right_is_file) =
        compare_components (final_tiebreak mode order left_path right_path) left_is_file
          right_is_file (components left_path) (components right_path)

  unfoldable pub compare_rel_paths : RelPath × Bool → RelPath × Bool → Ordering
  compare_rel_paths = compare_rel_paths_by directories_first default
