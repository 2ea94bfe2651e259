-- ===== src/NaturalSort/Keys.antt =====
-- The natural order as an order of keys: a run of digits is a number with its length, any other
-- character is itself in lower case.
use Prim.Native.Nat.{compare}
use zaku.Prelude.{
  ℕ, zero, suc, inl, inr, Bool-cases, ◌<◌, ◌≤◌, ◌≡◌, ◌⊎◌, true, false, List, [], ◌∷◌, length, All,
  arith,
}
use zaku.Order.{Order, Ordering, ℕ_order, product_order}
use zaku.NaturalSort.{is_ascii_digit, take_digits, value_from, u128_size}
use zaku.Text.{to_ascii_lowercase}
use zaku.NaturalSort.Values.{AllDigits}
use zaku.Text.{Str}

abbrev pub Key : Type 0
Key = ℕ × (ℕ × ℕ)

abbrev pub key_order : Order Key
key_order = product_order ℕ_order (product_order ℕ_order ℕ_order)

abbrev pub digits_key : Str → Key
digits_key digits = (b'0', (value_from 0 digits, length digits))

abbrev pub letter_key : ℕ → Key
letter_key c = (to_ascii_lowercase c, (0, 0))

-- The keys of a text; its length is fuel enough.
unfoldable pub keys_from : ℕ → Str → List Key
keys_from zero s = []
keys_from (suc fuel) [] = []
keys_from (suc fuel) (c ∷ s) =
    let (digits, rest) = take_digits (c ∷ s) in
    elim (is_ascii_digit c) [
      | true ↦ digits_key digits ∷ keys_from fuel rest
      | false ↦ letter_key c ∷ keys_from fuel s
    ]

abbrev pub keys : Str → List Key
keys s = keys_from (length s) s

-- Every run of digits stands for a number of 128 bits.
abbrev pub IsShort : Str → Type 0
IsShort s = All (λ key. key.1.0 < u128_size) (keys s)

pub take_digits-AllDigits : (s : Str) → AllDigits (take_digits s).0
unfolding take_digits
take_digits-AllDigits [] = tt
take_digits-AllDigits (c ∷ s) = elim (Bool-cases (is_ascii_digit c)) [
  | inl h ↦ rw (take_digits, h) (h, take_digits-AllDigits s)
  | inr h ↦ rw (take_digits, h) tt
]

length-take_digits : (s : Str) → length (take_digits s).1 ≤ length s
unfolding take_digits
length-take_digits [] = omega arith
length-take_digits (c ∷ s) = ground (arith, length-take_digits s)

pub length-take_digits-digit :
    (c : ℕ) (s : Str) → is_ascii_digit c ≡ true → length (take_digits (c ∷ s)).1 ≤ length s
unfolding take_digits
length-take_digits-digit c s h = rw (take_digits, h) (length-take_digits s)

module _ (fuel c : ℕ) (s : Str) where
  pub keys_from-digit :
      is_ascii_digit c ≡ true
      → keys_from (suc fuel) (c ∷ s)
        ≡ digits_key (take_digits (c ∷ s)).0 ∷ keys_from fuel (take_digits (c ∷ s)).1
  unfolding keys_from
  keys_from-digit h = rw (keys_from, h)

  pub keys_from-letter :
      is_ascii_digit c ≡ false → keys_from (suc fuel) (c ∷ s) ≡ letter_key c ∷ keys_from fuel s
  unfolding keys_from
  keys_from-letter h = rw (keys_from, h)

-- A digit and another character compare as `0` and that character.
pub compare-digit_letter :
    (c d : ℕ)
    → is_ascii_digit c ≡ true
    → is_ascii_digit d ≡ false
    → (compare (to_ascii_lowercase c) (to_ascii_lowercase d) ≡ compare 48 (to_ascii_lowercase d))
      × ((compare 48 (to_ascii_lowercase d) ≡ Ordering.lt)
          ⊎ (compare 48 (to_ascii_lowercase d) ≡ Ordering.gt))
unfolding is_ascii_digit
compare-digit_letter c d h k = ground arith

pub compare-letter_digit :
    (c d : ℕ)
    → is_ascii_digit c ≡ false
    → is_ascii_digit d ≡ true
    → (compare (to_ascii_lowercase c) (to_ascii_lowercase d) ≡ compare (to_ascii_lowercase c) 48)
      × ((compare (to_ascii_lowercase c) 48 ≡ Ordering.lt)
          ⊎ (compare (to_ascii_lowercase c) 48 ≡ Ordering.gt))
unfolding is_ascii_digit
compare-letter_digit c d h k = ground arith
