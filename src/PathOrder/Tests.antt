-- ===== src/PathOrder/Tests.antt =====
-- Runs of the order of paths, and its theorems at concrete paths.
use zaku.Prelude.{◌≡◌, ◌↔◌, refl, true, false, [], ◌∷◌, ◌++◌, map, leb, ◌&&◌}
use zaku.Order.{Ordering, reversed}
use zaku.Text.{text}
use zaku.NaturalSort.{
  is_ascii_digit, take_digits, compare_chars, natural_sort, natural_sort_no_tiebreak,
}
use zaku.Text.{to_ascii_lowercase}
use zaku.RelPath.{components, collect, next}
use zaku.PathOrder.{
  Unicode, default, upper, lower, directories_first, mixed, files_first, stem_and_extension,
  compare_strings, compare_strings_no_tiebreak, case_group_key, compare_component,
  compare_rel_paths_by, compare_rel_paths,
}
use zaku.PathOrder.Reversed.{compare_rel_paths_by-reversed}
use zaku.PathOrder.Ties.{compare_rel_paths_by-eq, compare_rel_paths_by-siblings}

-- The tables, as far as they are about ASCII.
abbrev ascii : Unicode
ascii = record {
  is_lowercase = λ c. leb b'a' c && leb c b'z';
  is_uppercase = λ c. leb b'A' c && leb c b'Z';
  to_lowercase = map to_ascii_lowercase;
}

root_dirs_first :
    compare_rel_paths ascii (text "src/main.rs", true) (text "Cargo.toml", true) ≡ Ordering.lt
unfolding compare_rel_paths compare_rel_paths_by compare_component components collect next
root_dirs_first = refl

-- By the stems first: `a` and `b`.
stems : compare_rel_paths ascii (text "a.rs", true) (text "b.md", true) ≡ Ordering.lt
unfolding compare_rel_paths compare_rel_paths_by compare_component components collect next
    stem_and_extension case_group_key compare_strings natural_sort compare_chars is_ascii_digit
    take_digits
stems = refl

-- With directories first, two files whose extensions differ in case only compare as equal.
extension_case : compare_rel_paths ascii (text "a.TXT", true) (text "a.txt", true) ≡ Ordering.eq
unfolding compare_rel_paths compare_rel_paths_by compare_component components collect next
    stem_and_extension case_group_key compare_strings natural_sort compare_chars is_ascii_digit
    take_digits
extension_case = refl

mixed_case :
    compare_rel_paths_by ascii mixed default (text "a.TXT", true) (text "a.txt", true) ≡ Ordering.gt
unfolding compare_rel_paths_by compare_component components collect next stem_and_extension
    case_group_key compare_strings compare_strings_no_tiebreak natural_sort natural_sort_no_tiebreak
    compare_chars is_ascii_digit take_digits
mixed_case = refl

compare_rel_paths_by-reversed_example :
    compare_rel_paths_by ascii mixed upper (text "b/c", true) (text "B", false)
    ≡ reversed (compare_rel_paths_by ascii mixed upper (text "B", false) (text "b/c", true))
compare_rel_paths_by-reversed_example =
    compare_rel_paths_by-reversed ascii mixed upper (text "B", false) (text "b/c", true)

compare_rel_paths_by-eq_example :
    (compare_rel_paths_by ascii files_first lower (text "a.TXT", true) (text "a.txt", true)
      ≡ Ordering.eq)
    ↔ (text "a.TXT" ≡ text "a.txt")
compare_rel_paths_by-eq_example =
    compare_rel_paths_by-eq ascii files_first lower true (text "a.TXT") (text "a.txt") refl

child_components : components (text "src/x/y") ≡ text "src" ∷ text "x" ∷ text "y" ∷ []
unfolding components collect next
child_components = refl

toml_components : components (text "Cargo.toml") ≡ text "Cargo.toml" ∷ []
unfolding components collect next
toml_components = refl

child_of_parent : components (text "src/x/y") ≡ components (text "src") ++ text "x" ∷ text "y" ∷ []
unfolding components collect next
child_of_parent = refl

compare_rel_paths_by-siblings_example :
    (compare_rel_paths_by ascii directories_first default
        (text "src/x/y", true)
        (text "Cargo.toml", true)
      ≡ Ordering.lt)
    × (compare_rel_paths_by ascii files_first default
          (text "src/x/y", true)
          (text "Cargo.toml", true)
        ≡ Ordering.gt)
compare_rel_paths_by-siblings_example =
    compare_rel_paths_by-siblings ascii default (text "src/x/y") (text "Cargo.toml") true []
      (text "x" ∷ text "y" ∷ []) (text "src") (text "Cargo.toml") child_components refl
      toml_components
