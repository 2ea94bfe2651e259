-- ===== src/PathOrder/Ties.antt =====
-- Which paths compare as equal, and where directories stand.
use zaku.Prelude.{
  ℕ, zero, suc, ◌≡◌, ◌↔◌, ◌∙◌, refl, sym, Bool, Bool-cases, true, false, ◌&&◌, List, [], ◌∷◌, ◌++◌,
  arith, length, ◌+◌, inl, inr,
}
use zaku.Order.{Ordering, then_with, reversed, ℕ_order, lexicographic_eq}
use zaku.Text.{Str, str_eq}
use zaku.Text.Split.{eq_of_str_eq}
use zaku.NaturalSort.Digits.{compare_chars-digits, compare_chars-letters}
use zaku.NaturalSort.{str_cmp, compare_chars, natural_sort, take_digits, is_ascii_digit}
use zaku.RelPath.{RelPath, components}
use zaku.PathOrder.{
  SortOrder, SortMode, Unicode, default, upper, lower, unicode, directories_first, files_first,
  is_directories_first, is_nil, compare_strings, compare_component, compare_components,
  final_tiebreak, compare_rel_paths_by,
}
use zaku.PathOrder.Reversed.{compare_component-reversed, compare_rel_paths_by-reversed}

eq_of_reversed : (o : Ordering) → o ≡ reversed o → o ≡ Ordering.eq
eq_of_reversed Ordering.lt h = cc
eq_of_reversed Ordering.eq h = refl
eq_of_reversed Ordering.gt h = cc

eq_of_then_with : (o p : Ordering) → then_with o p ≡ Ordering.eq → p ≡ Ordering.eq
eq_of_then_with Ordering.lt p h = cc
eq_of_then_with Ordering.eq p h = h
eq_of_then_with Ordering.gt p h = cc

tie_of_compare_chars :
    (fuel : ℕ) (tie : Ordering) (a b : Str)
    → compare_chars fuel tie a b ≡ Ordering.eq
    → tie ≡ Ordering.eq
unfolding compare_chars
tie_of_compare_chars zero tie a b h = h
tie_of_compare_chars (suc fuel) tie [] [] h = h
tie_of_compare_chars (suc fuel) tie [] (d ∷ b) h = cc
tie_of_compare_chars (suc fuel) tie (c ∷ a) [] h = cc
tie_of_compare_chars (suc fuel) tie (c ∷ a) (d ∷ b) h =
    elim (Bool-cases (is_ascii_digit c && is_ascii_digit d)) [
      | inl e ↦
          tie_of_compare_chars fuel tie (take_digits (c ∷ a)).1 (take_digits (d ∷ b)).1
            (eq_of_then_with _ _ (sym (compare_chars-digits fuel tie c d a b e) ∙ h))
      | inr e ↦
          tie_of_compare_chars fuel tie a b
            (eq_of_then_with _ _ (sym (compare_chars-letters fuel tie c d a b e) ∙ h))
    ]

eq_of_natural_sort : (a b : Str) → natural_sort a b ≡ Ordering.eq → a ≡ b
unfolding natural_sort
eq_of_natural_sort a b h = sym (
    (lexicographic_eq ℕ_order b a).0
      (tie_of_compare_chars (length a + length b) (str_cmp b a) a b h))

eq_of_compare_strings : (o : SortOrder) (a b : Str) → compare_strings o a b ≡ Ordering.eq → a ≡ b
unfolding compare_strings
eq_of_compare_strings default a b h = eq_of_natural_sort a b h
eq_of_compare_strings upper a b h = eq_of_natural_sort a b h
eq_of_compare_strings lower a b h = eq_of_natural_sort a b h
eq_of_compare_strings unicode a b h = (lexicographic_eq ℕ_order a b).0 h

eq_of_final_tiebreak :
    (m : SortMode) (o : SortOrder) (a b : RelPath)
    → is_directories_first m ≡ false
    → final_tiebreak m o a b ≡ Ordering.eq
    → a ≡ b
eq_of_final_tiebreak m o a b d h = elim (Bool-cases (str_eq a b)) [
  | inl e ↦ eq_of_str_eq a b e
  | inr e ↦
      let strings : final_tiebreak m o a b ≡ compare_strings o a b = rw (d, e) in
      eq_of_compare_strings o a b (sym strings ∙ h)
]

is_nil-append : (xs ys : List Str) (y : Str) → is_nil (xs ++ y ∷ ys) ≡ false
is_nil-append [] ys y = refl
is_nil-append (x ∷ xs) ys y = refl

and_false : (f b : Bool) → b ≡ false → (f && b) ≡ false
and_false f b h = ground arith

module _ (tables : Unicode) (m : SortMode) (o : SortOrder) where
  tie_of_compare_components :
      (t : Ordering) (f g : Bool) (xs ys : List Str)
      → compare_components tables m o t f g xs ys ≡ Ordering.eq
      → t ≡ Ordering.eq
  tie_of_compare_components t f g [] [] h = h
  tie_of_compare_components t f g [] (y ∷ ys) h = cc
  tie_of_compare_components t f g (x ∷ xs) [] h = cc
  tie_of_compare_components t f g (x ∷ xs) (y ∷ ys) h =
      tie_of_compare_components t f g xs ys (eq_of_then_with _ _ h)

  compare_component_self : (f : Bool) (x : Str) → compare_component tables m o f f x x ≡ Ordering.eq
  compare_component_self f x = eq_of_reversed _ (compare_component-reversed tables m o f f x x)

  -- In the modes that do not put directories first, and every order: two files, or two directories,
  -- compare as equal only if their paths are the same, and then they do.
  pub compare_rel_paths_by-eq :
      (f : Bool) (a b : RelPath)
      → is_directories_first m ≡ false
      → (compare_rel_paths_by tables m o (a, f) (b, f) ≡ Ordering.eq) ↔ (a ≡ b)
  unfolding compare_rel_paths_by
  compare_rel_paths_by-eq f a b d = (
    λ h.
        eq_of_final_tiebreak m o a b d
          (tie_of_compare_components (final_tiebreak m o a b) f f (components a) (components b) h),
    λ e. rw (← e) (eq_of_reversed _ (compare_rel_paths_by-reversed tables m o (a, f) (a, f))),
  )

  compare_components-prefix :
      (t : Ordering) (g : Bool) (xs ys : List Str) (y : Str)
      → compare_components tables m o t false g xs (xs ++ y ∷ ys) ≡ Ordering.lt
  compare_components-prefix t g [] ys y = refl
  compare_components-prefix t g (x ∷ xs) ys y =
      rw
        (
          and_false g (is_nil (xs ++ y ∷ ys)) (is_nil-append xs ys y),
          compare_component_self false x,
        )
        (compare_components-prefix t g xs ys y)

  -- In every mode and order: a directory comes before all that is in it, at any depth.
  pub compare_rel_paths_by-parent :
      (a b : RelPath) (g : Bool) (y : Str) (ys : List Str)
      → components b ≡ components a ++ y ∷ ys
      → compare_rel_paths_by tables m o (a, false) (b, g) ≡ Ordering.lt
  unfolding compare_rel_paths_by
  compare_rel_paths_by-parent a b g y ys h =
      rw h (compare_components-prefix (final_tiebreak m o a b) g (components a) ys y)

  compare_components-after :
      (t : Ordering) (f g : Bool) (xs ys zs : List Str) (y z : Str)
      → compare_components tables m o t f g (xs ++ y ∷ ys) (xs ++ z ∷ zs)
        ≡ compare_components tables m o t f g (y ∷ ys) (z ∷ zs)
  compare_components-after t f g [] ys zs y z = refl
  compare_components-after t f g (x ∷ xs) ys zs y z =
      rw
        (
          and_false f (is_nil (xs ++ y ∷ ys)) (is_nil-append xs ys y),
          and_false g (is_nil (xs ++ z ∷ zs)) (is_nil-append xs zs z),
          compare_component_self false x,
        )
        (compare_components-after t f g xs ys zs y z)

-- In every order: in a directory of the components `xs`, which has the file `z` and the directory
-- `y`, the directory and all that is in it come before the file when directories go first, and after
-- it when files do.
pub compare_rel_paths_by-siblings :
    (tables : Unicode) (o : SortOrder) (a b : RelPath) (f : Bool) (xs ys : List Str) (y z : Str)
    → components a ≡ xs ++ y ∷ ys
    → (f && is_nil ys) ≡ false
    → components b ≡ xs ++ z ∷ []
    → (compare_rel_paths_by tables directories_first o (a, f) (b, true) ≡ Ordering.lt)
      × (compare_rel_paths_by tables files_first o (a, f) (b, true) ≡ Ordering.gt)
unfolding compare_rel_paths_by compare_component
compare_rel_paths_by-siblings tables o a b f xs ys y z h d k = (
  rw (
    h,
    k,
    compare_components-after tables directories_first o (final_tiebreak directories_first o a b) f
        true xs ys [] y z,
    d,
  ),
  rw (
    h,
    k,
    compare_components-after tables files_first o (final_tiebreak files_first o a b) f true xs ys []
        y z,
    d,
  ),
)
