-- ===== src/NaturalSort/Total.antt =====
-- The natural order is a total order of the names whose numbers fit 128 bits.
use mathlib.Core.Path.{subst}
use zaku.Prelude.{
  ℕ, zero, suc, inl, inr, Bool-cases, ◌∙◌, ◌+◌, ◌<◌, ◌≤◌, ◌≡◌, ◌⊎◌, refl, sym, ap, true, false,
  List, [], ◌∷◌, length, All, arith,
}
use zaku.Order.{
  Order, Ordering, then_with, lexicographic, ℕ_order, list_order, product_order, opposite_order,
  pullback_order,
}
use zaku.NaturalSort.{str_cmp, is_ascii_digit, take_digits, u128_size, compare_chars, natural_sort}
use zaku.NaturalSort.Digits.{compare_chars-digits, compare_chars-letters}
use zaku.NaturalSort.Values.{then_with_assoc, then_with_eq, compare_digits-values}
use zaku.NaturalSort.Keys.{
  Key, key_order, keys_from, keys, IsShort, take_digits-AllDigits, length-take_digits-digit,
  keys_from-digit, keys_from-letter, compare-digit_letter, compare-letter_digit,
}
use zaku.Text.{Str}

-- By the keys, and names of the same keys the other way around as texts.
abbrev pub name_key : Str → List Key × Str
name_key s = (keys s, s)

abbrev pub name_order : Order Str
name_order =
    pullback_order (product_order (list_order key_order) (opposite_order (list_order ℕ_order)))
      name_key (λ a b e. ap (λ p. p.1) e)

abbrev compare_key_lists : List Key → List Key → Ordering
compare_key_lists = lexicographic key_order

abbrev AreShort : List Key → Type 0
AreShort = All (λ key. key.1.0 < u128_size)

then_with-then_with :
    (o k p q t : Ordering) → o ≡ k → p ≡ then_with q t → then_with o p ≡ then_with (then_with k q) t
then_with-then_with o k p q t h l = rw (h, l) (sym (then_with_assoc k q t))

then_with-decided :
    (o k p q r t : Ordering)
    → o ≡ k
    → (k ≡ Ordering.lt) ⊎ (k ≡ Ordering.gt)
    → then_with o p ≡ then_with (then_with (then_with k q) r) t
then_with-decided o k p q r t h d = ground arith

keys_from-nil : (n : ℕ) → keys_from n [] ≡ []
unfolding keys_from
keys_from-nil zero = refl
keys_from-nil (suc n) = refl

-- One round of the loop and one key of each text.
compare_key_lists-nil :
    (m d : ℕ) (b : Str) → compare_key_lists [] (keys_from (suc m) (d ∷ b)) ≡ Ordering.lt
compare_key_lists-nil m d b = elim (Bool-cases (is_ascii_digit d)) [
  | inl h ↦ rw (keys_from-digit m d b h)
  | inr h ↦ rw (keys_from-letter m d b h)
]

compare_key_lists-nil_right :
    (n c : ℕ) (a : Str) → compare_key_lists (keys_from (suc n) (c ∷ a)) [] ≡ Ordering.gt
compare_key_lists-nil_right n c a = elim (Bool-cases (is_ascii_digit c)) [
  | inl h ↦ rw (keys_from-digit n c a h)
  | inr h ↦ rw (keys_from-letter n c a h)
]

module _ (fuel n m : ℕ) (tie : Ordering) (c d : ℕ) (a b : Str)
    (short_a : AreShort (keys_from (suc n) (c ∷ a)))
    (short_b : AreShort (keys_from (suc m) (d ∷ b))) where
  abbrev Agrees : Type 0
  Agrees =
      compare_chars (suc fuel) tie (c ∷ a) (d ∷ b)
      ≡ then_with (compare_key_lists (keys_from (suc n) (c ∷ a)) (keys_from (suc m) (d ∷ b))) tie

  round-digits :
      (h : is_ascii_digit c ≡ true) (k : is_ascii_digit d ≡ true)
      → (AreShort (keys_from n (take_digits (c ∷ a)).1)
          → AreShort (keys_from m (take_digits (d ∷ b)).1)
          → compare_chars fuel tie (take_digits (c ∷ a)).1 (take_digits (d ∷ b)).1
            ≡ then_with
                (compare_key_lists
                  (keys_from n (take_digits (c ∷ a)).1)
                  (keys_from m (take_digits (d ∷ b)).1))
                tie)
      → Agrees
  round-digits h k rest =
      let s = subst AreShort (keys_from-digit n c a h) short_a in
      let t = subst AreShort (keys_from-digit m d b k) short_b in
      rw (keys_from-digit n c a h, keys_from-digit m d b k)
        (compare_chars-digits fuel tie c d a b (rw (h, k))
          ∙ then_with-then_with _ _ _ _ tie
              (compare_digits-values (take_digits (c ∷ a)).0 (take_digits (d ∷ b)).0
                (take_digits-AllDigits (c ∷ a)) (take_digits-AllDigits (d ∷ b)) s.0 t.0)
              (rest s.1 t.1))

  round-letters :
      (h : is_ascii_digit c ≡ false) (k : is_ascii_digit d ≡ false)
      → (AreShort (keys_from n a)
          → AreShort (keys_from m b)
          → compare_chars fuel tie a b
            ≡ then_with (compare_key_lists (keys_from n a) (keys_from m b)) tie)
      → Agrees
  round-letters h k rest =
      let s = subst AreShort (keys_from-letter n c a h) short_a in
      let t = subst AreShort (keys_from-letter m d b k) short_b in
      rw (keys_from-letter n c a h, keys_from-letter m d b k)
        (compare_chars-letters fuel tie c d a b (rw h)
          ∙ then_with-then_with _ _ _ _ tie (sym (then_with_eq _)) (rest s.1 t.1))

  round-digit_letter : (h : is_ascii_digit c ≡ true) (k : is_ascii_digit d ≡ false) → Agrees
  round-digit_letter h k =
      let e = compare-digit_letter c d h k in
      rw (keys_from-digit n c a h, keys_from-letter m d b k)
        (compare_chars-letters fuel tie c d a b (rw (h, k))
          ∙ then_with-decided _ _ _ _ _ tie e.0 e.1)

  round-letter_digit : (h : is_ascii_digit c ≡ false) (k : is_ascii_digit d ≡ true) → Agrees
  round-letter_digit h k =
      let e = compare-letter_digit c d h k in
      rw (keys_from-letter n c a h, keys_from-digit m d b k)
        (compare_chars-letters fuel tie c d a b (rw h) ∙ then_with-decided _ _ _ _ _ tie e.0 e.1)

compare_chars-keys :
    (fuel n m : ℕ) (tie : Ordering) (a b : Str)
    → length a ≤ n
    → length b ≤ m
    → n + m ≤ fuel
    → AreShort (keys_from n a)
    → AreShort (keys_from m b)
    → compare_chars fuel tie a b ≡ then_with (compare_key_lists (keys_from n a) (keys_from m b)) tie
unfolding compare_chars
compare_chars-keys zero n m tie [] [] p q r h k = rw (keys_from-nil n, keys_from-nil m)
compare_chars-keys zero n m tie [] (d ∷ b) p q r h k = absurd (omega (arith, q, r))
compare_chars-keys zero n m tie (c ∷ a) b p q r h k = absurd (omega (arith, p, r))
compare_chars-keys (suc fuel) n m tie [] [] p q r h k = rw (keys_from-nil n, keys_from-nil m)
compare_chars-keys (suc fuel) n zero tie a (d ∷ b) p q r h k = absurd (omega (arith, q))
compare_chars-keys (suc fuel) n (suc m) tie [] (d ∷ b) p q r h k =
    rw (keys_from-nil n, compare_key_lists-nil m d b)
compare_chars-keys (suc fuel) zero m tie (c ∷ a) b p q r h k = absurd (omega (arith, p))
compare_chars-keys (suc fuel) (suc n) m tie (c ∷ a) [] p q r h k =
    rw (keys_from-nil m, compare_key_lists-nil_right n c a)
compare_chars-keys (suc fuel) (suc n) (suc m) tie (c ∷ a) (d ∷ b) p q r h k =
    elim (Bool-cases (is_ascii_digit c)) [
      | inl e ↦ elim (Bool-cases (is_ascii_digit d)) [
        | inl f ↦ round-digits fuel n m tie c d a b h k e f (
            compare_chars-keys fuel n m tie (take_digits (c ∷ a)).1 (take_digits (d ∷ b)).1
              (omega (arith, p, length-take_digits-digit c a e))
              (omega (arith, q, length-take_digits-digit d b f)) (omega (arith, r)))
        | inr f ↦ round-digit_letter fuel n m tie c d a b h k e f
      ]
      | inr e ↦ elim (Bool-cases (is_ascii_digit d)) [
        | inl f ↦ round-letter_digit fuel n m tie c d a b h k e f
        | inr f ↦ round-letters fuel n m tie c d a b h k e f (
            compare_chars-keys fuel n m tie a b (omega (arith, p)) (omega (arith, q))
              (omega (arith, r)))
      ]
    ]

-- Of two names whose runs of digits all stand for numbers of 128 bits: natural_sort compares them as
-- the total order does that goes by their keys, which are a number and its length for a run of digits
-- and the character in lower case for any other, and by the texts, the greater one first, if the
-- keys are the same.
pub natural_sort-name_order :
    (a b : Str) → IsShort a → IsShort b → natural_sort a b ≡ name_order.cmp a b
unfolding natural_sort
natural_sort-name_order a b h k =
    compare_chars-keys (length a + length b) (length a) (length b) (str_cmp b a) a b (omega arith)
      (omega arith) (omega arith) h k
