-- ===== src/NaturalSort/Tests.antt =====
-- Runs of the natural order, and its theorem at concrete names.
use zaku.Prelude.{◌≡◌, refl, arith}
use zaku.Order.{Ordering}
use zaku.Text.{Str, text}
use zaku.NaturalSort.{is_ascii_digit, take_digits, compare_digits, compare_chars, natural_sort}
use zaku.NaturalSort.Keys.{keys_from, IsShort}
use zaku.NaturalSort.Total.{name_order, natural_sort-name_order}

file_2 : natural_sort (text "file2.rs") (text "file10.rs") ≡ Ordering.lt
unfolding natural_sort compare_chars compare_digits take_digits is_ascii_digit
file_2 = refl

leading_zero : natural_sort (text "file01") (text "file1") ≡ Ordering.gt
unfolding natural_sort compare_chars compare_digits take_digits is_ascii_digit
leading_zero = refl

capital : natural_sort (text "apple") (text "Apple") ≡ Ordering.lt
unfolding natural_sort compare_chars compare_digits take_digits is_ascii_digit
capital = refl

-- The 40 digits of 10 to the power of 39, which is more than 128 bits hold, compare as a text with
-- runs of other lengths: the three names below are in a circle.
abbrev overflowing : Str
overflowing = text "1000000000000000000000000000000000000000"

circle_1 : natural_sort (text "99") (text "100") ≡ Ordering.lt
unfolding natural_sort compare_chars compare_digits take_digits is_ascii_digit
circle_1 = refl

circle_2 : natural_sort (text "100") overflowing ≡ Ordering.lt
unfolding natural_sort compare_chars compare_digits take_digits is_ascii_digit
circle_2 = refl

circle_3 : natural_sort overflowing (text "99") ≡ Ordering.lt
unfolding natural_sort compare_chars compare_digits take_digits is_ascii_digit
circle_3 = refl

v2-IsShort : IsShort (text "v2")
unfolding keys_from take_digits is_ascii_digit
v2-IsShort = (omega arith, (omega arith, tt))

v10-IsShort : IsShort (text "v10")
unfolding keys_from take_digits is_ascii_digit
v10-IsShort = (omega arith, (omega arith, tt))

natural_sort-name_order_example :
    natural_sort (text "v2") (text "v10") ≡ name_order.cmp (text "v2") (text "v10")
natural_sort-name_order_example =
    natural_sort-name_order (text "v2") (text "v10") v2-IsShort v10-IsShort
