-- ===== src/NaturalSort/Digits.antt =====
-- Runs of digits: how they are cut off, and how they compare.
use Prim.Native.Nat.{compare}
use zaku.Prelude.{
  ℕ, zero, suc, inl, inr, Bool-cases, ◌∙◌, ◌+◌, ◌≡◌, refl, Bool, true, false, ◌&&◌, Option, none,
  some, [], ◌∷◌, length, arith,
}
use zaku.Order.{Ordering, then_with, reversed, lexicographic-reversed, ℕ_order, ℕ-cmp_reversed}
use zaku.NaturalSort.{
  str_cmp, is_ascii_digit, take_digits, parse_u128, by_value, by_length, compare_chars,
  natural_sort, compare_digits,
}
use zaku.Text.{to_ascii_lowercase}
use zaku.Text.{Str}

pub and_comm : (a b : Bool) → (a && b) ≡ (b && a)
and_comm a b = ground arith

pub str_cmp-reversed : (a b : Str) → str_cmp b a ≡ reversed (str_cmp a b)
str_cmp-reversed = lexicographic-reversed ℕ_order

reversed-then_with :
    (o p : Ordering) → then_with (reversed o) (reversed p) ≡ reversed (then_with o p)
reversed-then_with Ordering.lt p = refl
reversed-then_with Ordering.eq p = refl
reversed-then_with Ordering.gt p = refl

by_value-reversed :
    (o : Ordering) (l r : Option ℕ) (t : Ordering)
    → by_value (reversed o) r l (reversed t) ≡ reversed (by_value o l r t)
by_value-reversed o (some l) (some r) t =
    rw (ℕ-cmp_reversed l r) (reversed-then_with (compare l r) o)
by_value-reversed o (some l) none t = refl
by_value-reversed o none (some r) t = refl
by_value-reversed o none none t = refl

by_length-reversed :
    (o : Ordering) (l r : Option ℕ) (t : Ordering)
    → by_length (reversed o) r l (reversed t) ≡ reversed (by_length o l r t)
by_length-reversed Ordering.lt l r t = by_value-reversed Ordering.lt l r t
by_length-reversed Ordering.eq l r t = refl
by_length-reversed Ordering.gt l r t = by_value-reversed Ordering.gt l r t

pub compare_digits-reversed : (a b : Str) → compare_digits b a ≡ reversed (compare_digits a b)
unfolding compare_digits
compare_digits-reversed a b =
    rw (ℕ-cmp_reversed (length a) (length b), str_cmp-reversed a b)
      (by_length-reversed (compare (length a) (length b)) (parse_u128 a) (parse_u128 b)
        (str_cmp a b))

-- Two comparisons in a row, each the reverse of the other way around.
pub then_with-both :
    (o q p r : Ordering)
    → o ≡ reversed q
    → p ≡ reversed r
    → then_with o p ≡ reversed (then_with q r)
then_with-both o q p r h k = rw (h, k) (reversed-then_with q r)

module _ (fuel : ℕ) (tie : Ordering) (c d : ℕ) (a b : Str) where
  pub compare_chars-digits :
      (is_ascii_digit c && is_ascii_digit d) ≡ true
      → compare_chars (suc fuel) tie (c ∷ a) (d ∷ b)
        ≡ then_with
            (compare_digits (take_digits (c ∷ a)).0 (take_digits (d ∷ b)).0)
            (compare_chars fuel tie (take_digits (c ∷ a)).1 (take_digits (d ∷ b)).1)
  unfolding compare_chars
  compare_chars-digits h = rw (compare_chars, h)

  pub compare_chars-letters :
      (is_ascii_digit c && is_ascii_digit d) ≡ false
      → compare_chars (suc fuel) tie (c ∷ a) (d ∷ b)
        ≡ then_with
            (compare (to_ascii_lowercase c) (to_ascii_lowercase d))
            (compare_chars fuel tie a b)
  unfolding compare_chars
  compare_chars-letters h = rw (compare_chars, h)

pub compare_chars-reversed :
    (fuel : ℕ) (tie : Ordering) (a b : Str)
    → compare_chars fuel (reversed tie) b a ≡ reversed (compare_chars fuel tie a b)
unfolding compare_chars
compare_chars-reversed zero tie a b = refl
compare_chars-reversed (suc fuel) tie [] [] = refl
compare_chars-reversed (suc fuel) tie [] (d ∷ b) = refl
compare_chars-reversed (suc fuel) tie (c ∷ a) [] = refl
compare_chars-reversed (suc fuel) tie (c ∷ a) (d ∷ b) =
    elim (Bool-cases (is_ascii_digit c && is_ascii_digit d)) [
      | inl h ↦
          rw
            (
              compare_chars-digits fuel tie c d a b h,
              compare_chars-digits fuel (reversed tie) d c b a
                  (and_comm (is_ascii_digit d) (is_ascii_digit c) ∙ h),
            )
            (then_with-both _ _ _ _
              (compare_digits-reversed (take_digits (c ∷ a)).0 (take_digits (d ∷ b)).0)
              (compare_chars-reversed fuel tie (take_digits (c ∷ a)).1 (take_digits (d ∷ b)).1))
      | inr h ↦
          rw
            (
              compare_chars-letters fuel tie c d a b h,
              compare_chars-letters fuel (reversed tie) d c b a
                  (and_comm (is_ascii_digit d) (is_ascii_digit c) ∙ h),
            )
            (then_with-both _ _ _ _ (ℕ-cmp_reversed (to_ascii_lowercase c) (to_ascii_lowercase d))
              (compare_chars-reversed fuel tie a b))
    ]

pub natural_sort-reversed : (a b : Str) → natural_sort b a ≡ reversed (natural_sort a b)
unfolding natural_sort
natural_sort-reversed a b =
    let fuels : length b + length a ≡ length a + length b = omega arith in
    rw (fuels, str_cmp-reversed b a)
      (compare_chars-reversed (length a + length b) (str_cmp b a) a b)
