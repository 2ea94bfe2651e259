-- ===== src/NaturalSort.antt =====
-- crates/path/src/path.rs: the natural order of names, which compares runs of digits as numbers and
-- letters without their case.
pub mod Digits
mod Tests
pub mod Total
pub mod Keys
pub mod Values
use zaku.Prelude.{
  ℕ, zero, suc, ◌+◌, Bool, true, false, ◌&&◌, Option, none, some, List, [], ◌∷◌, length, leb, ltb,
  if◌then◌else◌, map,
}
use Prim.Native.Nat.{◌*◌, ◌-◌, compare}
use zaku.Order.{Ordering, then_with, ℕ_order, lexicographic}
use zaku.Text.{to_ascii_lowercase, eq_ignore_ascii_case, Str, str_eq}

-- `str::cmp`: by bytes, and so by code points.
abbrev pub str_cmp : Str → Str → Ordering
str_cmp = lexicographic ℕ_order

unfoldable pub is_ascii_digit : ℕ → Bool
is_ascii_digit c = leb b'0' c && leb c b'9'

-- The digits that an iterator yields next, and what is left of it.
unfoldable pub take_digits : Str → Str × Str
take_digits [] = ([], [])
take_digits (c ∷ s) =
    let (digits, rest) = take_digits s in
    if is_ascii_digit c then (c ∷ digits, rest) else ([], c ∷ s)

-- The number that digits stand for: what `str::parse` computes, unless it overflows.
abbrev pub value_from : ℕ → Str → ℕ
value_from n [] = n
value_from n (c ∷ s) = value_from (n * 10 + (c - b'0')) s

abbrev pub u128_size : ℕ
u128_size = 340282366920938463463374607431768211456

abbrev pub parse_u128 : Str → Option ℕ
parse_u128 digits =
    let value = value_from 0 digits in if ltb value u128_size then some value else none

-- Digits of different lengths: by the numbers and then by `ordering`, that of the lengths, or as
-- texts if a number overflows.
abbrev pub by_value : Ordering → Option ℕ → Option ℕ → Ordering → Ordering
by_value ordering (some left_value) (some right_value) text =
    then_with (compare left_value right_value) ordering
by_value ordering (some left_value) none text = text
by_value ordering none right_value text = text

-- Digits of the same length as texts, others by their values.
abbrev pub by_length : Ordering → Option ℕ → Option ℕ → Ordering → Ordering
by_length Ordering.eq left_value right_value text = text
by_length ordering left_value right_value text = by_value ordering left_value right_value text

-- `compare_numeric_segments`, on the two runs of digits.
unfoldable pub compare_digits : Str → Str → Ordering
compare_digits left_digits right_digits =
    by_length (compare (length left_digits) (length right_digits)) (parse_u128 left_digits)
      (parse_u128 right_digits) (str_cmp left_digits right_digits)

-- The loop of `natural_sort`; `tie` is what it returns at the end of both. Each round takes at
-- least one character of either, so the length of both is fuel enough.
unfoldable pub compare_chars : ℕ → Ordering → Str → Str → Ordering
compare_chars zero tie left right = tie
compare_chars (suc fuel) tie [] [] = tie
compare_chars (suc fuel) tie [] (d ∷ right) = Ordering.lt
compare_chars (suc fuel) tie (c ∷ left) [] = Ordering.gt
compare_chars (suc fuel) tie (c ∷ left) (d ∷ right) =
    let (left_digits, left_rest) = take_digits (c ∷ left) in
    let (right_digits, right_rest) = take_digits (d ∷ right) in
    elim (is_ascii_digit c && is_ascii_digit d) [
      | true ↦
          then_with (compare_digits left_digits right_digits)
            (compare_chars fuel tie left_rest right_rest)
      | false ↦
          then_with (compare (to_ascii_lowercase c) (to_ascii_lowercase d))
            (compare_chars fuel tie left right)
    ]

unfoldable pub natural_sort : Str → Str → Ordering
natural_sort left right = compare_chars (length left + length right) (str_cmp right left) left right

unfoldable pub natural_sort_no_tiebreak : Str → Str → Ordering
natural_sort_no_tiebreak left right =
    if eq_ignore_ascii_case left right then Ordering.eq else natural_sort left right
