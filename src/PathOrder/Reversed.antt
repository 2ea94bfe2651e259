-- ===== src/PathOrder/Reversed.antt =====
-- The order of paths does not depend on which path comes first.
use zaku.Prelude.{
  ◌≡◌, refl, Bool, true, false, not, ◌&&◌, Option, none, some, List, [], ◌∷◌, map, if◌then◌else◌,
  arith,
}
use zaku.Order.{Ordering, reversed, ℕ-cmp_reversed}
use zaku.Text.{Str, str_eq}
use zaku.NaturalSort.{natural_sort, natural_sort_no_tiebreak}
use zaku.Text.{eq_ignore_ascii_case, to_ascii_lowercase}
use zaku.NaturalSort.Digits.{str_cmp-reversed, natural_sort-reversed, then_with-both, and_comm}
use zaku.RelPath.{RelPath, components}
use zaku.PathOrder.{
  SortOrder, SortMode, Unicode, default, upper, lower, unicode, directories_first, mixed,
  files_first, from_bool, is_directories_first, bool_cmp, is_nil, compare_strings,
  compare_strings_no_tiebreak, compare_names, file_dir_ordering, mixed_ordering, key_and_extension,
  case_group_key, extension_name, compare_extensions, compare_keys, compare_component,
  compare_components, final_tiebreak, compare_rel_paths_by,
}

str_eq_comm : (a b : Str) → str_eq b a ≡ str_eq a b
str_eq_comm [] [] = refl
str_eq_comm [] (d ∷ b) = refl
str_eq_comm (c ∷ a) [] = refl
str_eq_comm (c ∷ a) (d ∷ b) = ground (arith, str_eq_comm a b)

eq_ignore_ascii_case_comm : (a b : Str) → eq_ignore_ascii_case b a ≡ eq_ignore_ascii_case a b
eq_ignore_ascii_case_comm a b = str_eq_comm (map to_ascii_lowercase a) (map to_ascii_lowercase b)

reversed-if :
    (b : Bool) (o p q r : Ordering)
    → o ≡ reversed q
    → p ≡ reversed r
    → (if b then o else p) ≡ reversed (if b then q else r)
reversed-if true o p q r h k = h
reversed-if false o p q r h k = k

natural_sort_no_tiebreak-reversed :
    (a b : Str) → natural_sort_no_tiebreak b a ≡ reversed (natural_sort_no_tiebreak a b)
unfolding natural_sort_no_tiebreak
natural_sort_no_tiebreak-reversed a b = rw (eq_ignore_ascii_case_comm a b) (
    reversed-if (eq_ignore_ascii_case a b) Ordering.eq (natural_sort b a) Ordering.eq
      (natural_sort a b) refl (natural_sort-reversed a b))

compare_strings-reversed :
    (o : SortOrder) (a b : Str) → compare_strings o b a ≡ reversed (compare_strings o a b)
unfolding compare_strings
compare_strings-reversed default a b = natural_sort-reversed a b
compare_strings-reversed upper a b = natural_sort-reversed a b
compare_strings-reversed lower a b = natural_sort-reversed a b
compare_strings-reversed unicode a b = str_cmp-reversed a b

compare_strings_no_tiebreak-reversed :
    (o : SortOrder) (a b : Str)
    → compare_strings_no_tiebreak o b a ≡ reversed (compare_strings_no_tiebreak o a b)
unfolding compare_strings_no_tiebreak
compare_strings_no_tiebreak-reversed default a b = natural_sort_no_tiebreak-reversed a b
compare_strings_no_tiebreak-reversed upper a b = natural_sort_no_tiebreak-reversed a b
compare_strings_no_tiebreak-reversed lower a b = natural_sort_no_tiebreak-reversed a b
compare_strings_no_tiebreak-reversed unicode a b = str_cmp-reversed a b

compare_names-reversed :
    (m : SortMode) (o : SortOrder) (a b : Str)
    → compare_names m o b a ≡ reversed (compare_names m o a b)
compare_names-reversed directories_first o a b = compare_strings-reversed o a b
compare_names-reversed mixed o a b = compare_strings_no_tiebreak-reversed o a b
compare_names-reversed files_first o a b = compare_strings_no_tiebreak-reversed o a b

bool_cmp-reversed : (a b : Bool) → bool_cmp b a ≡ reversed (bool_cmp a b)
bool_cmp-reversed a b = ℕ-cmp_reversed (from_bool a) (from_bool b)

file_dir_ordering-reversed :
    (m : SortMode) (a b : Bool) → file_dir_ordering m b a ≡ reversed (file_dir_ordering m a b)
file_dir_ordering-reversed directories_first a b = bool_cmp-reversed a b
file_dir_ordering-reversed mixed a b = refl
file_dir_ordering-reversed files_first a b = bool_cmp-reversed b a

mixed_ordering-reversed :
    (m : SortMode) (f g : Bool) (a b : Str)
    → mixed_ordering m g f b a ≡ reversed (mixed_ordering m f g a b)
mixed_ordering-reversed mixed true false a b =
    rw (eq_ignore_ascii_case_comm a b) (reversed-if (eq_ignore_ascii_case a b) _ _ _ _ refl refl)
mixed_ordering-reversed mixed false true a b =
    rw (eq_ignore_ascii_case_comm a b) (reversed-if (eq_ignore_ascii_case a b) _ _ _ _ refl refl)
mixed_ordering-reversed mixed true true a b = refl
mixed_ordering-reversed mixed false false a b = refl
mixed_ordering-reversed directories_first f g a b = refl
mixed_ordering-reversed files_first f g a b = refl

compare_extensions-reversed :
    (tables : Unicode) (o : SortOrder) (a b : Option Str)
    → compare_extensions tables o b a ≡ reversed (compare_extensions tables o a b)
compare_extensions-reversed tables o a b =
    str_cmp-reversed (extension_name tables o a) (extension_name tables o b)

final_tiebreak-reversed :
    (m : SortMode) (o : SortOrder) (a b : RelPath)
    → final_tiebreak m o b a ≡ reversed (final_tiebreak m o a b)
final_tiebreak-reversed m o a b = rw (str_eq_comm a b) (
    reversed-if (not (is_directories_first m) && not (str_eq a b)) _ Ordering.eq _ Ordering.eq
      (compare_strings-reversed o a b) refl)

module _ (tables : Unicode) (m : SortMode) (o : SortOrder) where
  compare_keys-reversed :
      (f g : Bool) (a b : Option Str) (p q : Ordering)
      → p ≡ reversed q
      → compare_keys tables m o g f b a p ≡ reversed (compare_keys tables m o f g a b q)
  compare_keys-reversed f g (some a) (some b) p q h = rw (and_comm g f) (
      then_with-both _ _ _ _
        (then_with-both _ _ _ _
          (then_with-both _ _ _ _
            (ℕ-cmp_reversed (case_group_key tables a o) (case_group_key tables b o))
            (compare_names-reversed m o a b))
          (mixed_ordering-reversed m f g a b))
        (reversed-if (f && g) p Ordering.eq q Ordering.eq h refl))
  compare_keys-reversed f g (some a) none p q h = refl
  compare_keys-reversed f g none (some b) p q h = refl
  compare_keys-reversed f g none none p q h = refl

  pub compare_component-reversed :
      (f g : Bool) (a b : Str)
      → compare_component tables m o g f b a ≡ reversed (compare_component tables m o f g a b)
  unfolding compare_component
  compare_component-reversed f g a b = then_with-both _ _ _ _ (file_dir_ordering-reversed m f g) (
      compare_keys-reversed f g (key_and_extension f a).0 (key_and_extension g b).0 _ _
        (compare_extensions-reversed tables o (key_and_extension f a).1 (key_and_extension g b).1))

  compare_components-reversed :
      (t : Ordering) (f g : Bool) (xs ys : List Str)
      → compare_components tables m o (reversed t) g f ys xs
        ≡ reversed (compare_components tables m o t f g xs ys)
  compare_components-reversed t f g [] [] = refl
  compare_components-reversed t f g [] (y ∷ ys) = refl
  compare_components-reversed t f g (x ∷ xs) [] = refl
  compare_components-reversed t f g (x ∷ xs) (y ∷ ys) =
      then_with-both _ _ _ _ (compare_component-reversed (f && is_nil xs) (g && is_nil ys) x y)
        (compare_components-reversed t f g xs ys)

  -- In every mode and order, whatever the tables of Unicode: two paths, files or directories, compare
  -- the other way around as the reverse.
  pub compare_rel_paths_by-reversed :
      (a b : RelPath × Bool)
      → compare_rel_paths_by tables m o b a ≡ reversed (compare_rel_paths_by tables m o a b)
  unfolding compare_rel_paths_by
  compare_rel_paths_by-reversed (a, f) (b, g) =
      rw (final_tiebreak-reversed m o a b)
        (compare_components-reversed (final_tiebreak m o a b) f g (components a) (components b))
