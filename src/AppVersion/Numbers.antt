-- ===== src/AppVersion/Numbers.antt =====
-- The numbers of a printed version: no separator stands in a number, and its digits stand for it.
use Prim.Native.Nat.{◌/◌, ◌%◌, ◌*◌, ◌-◌}
use mathlib.Core.List.{append_assoc}
use zaku.Prelude.{
  ℕ, zero, suc, ◌+◌, ◌<◌, ◌≡◌, refl, inl, inr, false, [], ◌∷◌, ◌++◌, length, ltb, All-append,
  Bool-cases, arith,
}
use zaku.Text.{Str, contains, split}
use zaku.Text.Split.{Lacks, split-append, split-Lacks}
use zaku.NaturalSort.{value_from}
use zaku.AppVersion.Format.{decimal_from, decimal, two_numbers, three_numbers}

-- A digit is none of the separators, whose codes are less.
decimal_from-Lacks : (sep fuel n : ℕ) → sep < 48 → Lacks sep (decimal_from fuel n)
decimal_from-Lacks sep zero n h = tt
decimal_from-Lacks sep (suc fuel) n h = elim (Bool-cases (ltb n 10)) [
  | inl e ↦ rw (decimal_from, e) (ground arith, tt)
  | inr e ↦
      rw (decimal_from, e)
        (All-append _ (decimal_from fuel (n / 10)) _ (decimal_from-Lacks sep fuel (n / 10) h)
          (ground arith, tt))
]

decimal-Lacks : (sep n : ℕ) → sep < 48 → Lacks sep (decimal n)
unfolding decimal
decimal-Lacks sep n = decimal_from-Lacks sep (suc n) n

pub contains-Lacks : (sep : ℕ) (s : Str) → Lacks sep s → contains sep s ≡ false
contains-Lacks sep [] h = refl
contains-Lacks sep (c ∷ s) h = rw (h.0, contains-Lacks sep s h.1)

module _ (sep major minor : ℕ) (h : sep < 46) where
  pub two_numbers-Lacks : Lacks sep (two_numbers major minor)
  unfolding two_numbers
  two_numbers-Lacks =
      All-append _ (decimal major) _ (decimal-Lacks sep major (omega arith))
        (ground arith, decimal-Lacks sep minor (omega arith))

  pub three_numbers-Lacks : (patch : ℕ) → Lacks sep (three_numbers major minor patch)
  unfolding three_numbers
  three_numbers-Lacks patch =
      All-append _ (two_numbers major minor) _ two_numbers-Lacks
        (ground arith, decimal-Lacks sep patch (omega arith))

pub count-two_numbers : (major minor : ℕ) → length (split b'.' (two_numbers major minor)) ≡ 2
unfolding two_numbers
count-two_numbers major minor =
    rw
      (
        split-append b'.' (decimal major) (decimal minor) (decimal-Lacks b'.' major (omega arith)),
        split-Lacks b'.' (decimal minor) (decimal-Lacks b'.' minor (omega arith)),
      )
      refl

pub split-three_numbers :
    (major minor patch : ℕ)
    → split b'.' (three_numbers major minor patch)
      ≡ decimal major ∷ decimal minor ∷ decimal patch ∷ []
unfolding two_numbers three_numbers
split-three_numbers major minor patch =
    rw
      (
        append_assoc (decimal major) (b'.' ∷ decimal minor) (b'.' ∷ decimal patch),
        split-append b'.' (decimal major) (decimal minor ++ b'.' ∷ decimal patch)
            (decimal-Lacks b'.' major (omega arith)),
        split-append b'.' (decimal minor) (decimal patch) (decimal-Lacks b'.' minor (omega arith)),
        split-Lacks b'.' (decimal patch) (decimal-Lacks b'.' patch (omega arith)),
      )
      refl

value_from-append :
    (m : ℕ) (a : Str) (c : ℕ) → value_from m (a ++ c ∷ []) ≡ value_from m a * 10 + (c - b'0')
value_from-append m [] c = refl
value_from-append m (d ∷ a) c = value_from-append (m * 10 + (d - b'0')) a c

decimal_from-value : (fuel n : ℕ) → n < fuel → value_from 0 (decimal_from fuel n) ≡ n
decimal_from-value zero n h = absurd (omega arith)
decimal_from-value (suc fuel) n h = elim (Bool-cases (ltb n 10)) [
  | inl e ↦ rw (decimal_from, e) (omega arith)
  | inr e ↦
      let few : n / 10 < fuel = ground arith in
      rw
        (
          decimal_from,
          e,
          value_from-append 0 (decimal_from fuel (n / 10)) (b'0' + n % 10),
          decimal_from-value fuel (n / 10) few,
        )
        (omega arith)
]

-- The digits stand for the number.
pub decimal-value : (n : ℕ) → value_from 0 (decimal n) ≡ n
unfolding decimal
decimal-value n = decimal_from-value (suc n) n (omega arith)
