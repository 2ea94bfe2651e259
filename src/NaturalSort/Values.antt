-- ===== src/NaturalSort/Values.antt =====
-- Runs of digits compare by their values and then by their lengths, unless a value overflows.
use Prim.Native.Nat.{compare, ◌*◌, ◌-◌}
use zaku.Prelude.{ℕ, ◌∙◌, ◌+◌, ◌<◌, ◌≡◌, refl, sym, ap, true, some, [], ◌∷◌, length, All, arith}
use zaku.Order.{Ordering, then_with, ℕ-cmp_eq}
use zaku.NaturalSort.{
  str_cmp, is_ascii_digit, value_from, u128_size, parse_u128, by_length, compare_digits,
}
use zaku.Text.{Str}

pub then_with_assoc : (o p q : Ordering) → then_with (then_with o p) q ≡ then_with o (then_with p q)
then_with_assoc Ordering.lt p q = refl
then_with_assoc Ordering.eq p q = refl
then_with_assoc Ordering.gt p q = refl

pub then_with_eq : (o : Ordering) → then_with o Ordering.eq ≡ o
then_with_eq Ordering.lt = refl
then_with_eq Ordering.eq = refl
then_with_eq Ordering.gt = refl

abbrev pub AllDigits : Str → Type 0
AllDigits = All (λ c. is_ascii_digit c ≡ true)

-- One more digit each.
compare-shifted :
    (m n c d : ℕ)
    → is_ascii_digit c ≡ true
    → is_ascii_digit d ≡ true
    → compare (m * 10 + (c - 48)) (n * 10 + (d - 48)) ≡ then_with (compare m n) (compare c d)
unfolding is_ascii_digit
compare-shifted m n c d h k = ground arith

compare-values :
    (m n : ℕ) (xs ys : Str)
    → length xs ≡ length ys
    → AllDigits xs
    → AllDigits ys
    → compare (value_from m xs) (value_from n ys) ≡ then_with (compare m n) (str_cmp xs ys)
compare-values m n [] [] e h k = ground arith
compare-values m n [] (d ∷ ys) e h k = absurd (ground arith)
compare-values m n (c ∷ xs) [] e h k = absurd (ground arith)
compare-values m n (c ∷ xs) (d ∷ ys) e h k =
    compare-values (m * 10 + (c - 48)) (n * 10 + (d - 48)) xs ys (omega arith) h.1 k.1
    ∙ ap (λ o. then_with o (str_cmp xs ys)) (compare-shifted m n c d h.0 k.0)
    ∙ then_with_assoc (compare m n) (compare c d) (str_cmp xs ys)

parse_u128-some :
    (digits : Str)
    → value_from 0 digits < u128_size
    → parse_u128 digits ≡ some (value_from 0 digits)
parse_u128-some digits h = ground arith

by_length-some :
    (o : Ordering) (v w : ℕ) (text : Ordering)
    → (o ≡ Ordering.eq → compare v w ≡ text)
    → by_length o (some v) (some w) text ≡ then_with (compare v w) o
by_length-some Ordering.lt v w text h = refl
by_length-some Ordering.eq v w text h = sym (h refl) ∙ sym (then_with_eq (compare v w))
by_length-some Ordering.gt v w text h = refl

pub compare_digits-values :
    (xs ys : Str)
    → AllDigits xs
    → AllDigits ys
    → value_from 0 xs < u128_size
    → value_from 0 ys < u128_size
    → compare_digits xs ys
      ≡ then_with (compare (value_from 0 xs) (value_from 0 ys)) (compare (length xs) (length ys))
unfolding compare_digits
compare_digits-values xs ys h k l m =
    rw (compare_digits, parse_u128-some xs l, parse_u128-some ys m)
      (by_length-some (compare (length xs) (length ys)) (value_from 0 xs) (value_from 0 ys)
        (str_cmp xs ys)
        (λ e. compare-values 0 0 xs ys ((ℕ-cmp_eq (length xs) (length ys)).0 e) h k))
