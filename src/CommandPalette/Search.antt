-- ===== src/CommandPalette/Search.antt =====
-- crates/command_palette/src/command_palette.rs: what the two loops over the history find.
use mathlib.Core.Path.{subst}
use native.Mathlib.Decide.{dec_lt}
use zaku.Prelude.{
  ◌≡◌, refl, sym, ap, ℕ, zero, suc, ◌+◌, ◌≤◌, ◌<◌, true, false, none, some, List, get_elem?, arith,
  Bool-cases, inl, inr,
}
use zaku.Text.{Str}
use zaku.CommandPalette.{matches, search_back, search_forward}

module _ (prefix : Str) (queries : List Str) where
  abbrev pub Matches : ℕ → Type 0
  Matches index = matches prefix (get_elem? queries index) ≡ true

  -- No query from the first index up to the second starts with the prefix.
  abbrev pub NoneFrom : ℕ → ℕ → Type 0
  NoneFrom low high =
      (index : ℕ) → low ≤ index → index < high → matches prefix (get_elem? queries index) ≡ false

  NoneFrom-suc :
      (low high : ℕ)
      → NoneFrom low high
      → matches prefix (get_elem? queries high) ≡ false
      → NoneFrom low (suc high)
  NoneFrom-suc low high skip last index from below = elim (dec_lt index high) [
    | yes before ↦ skip index from before
    | no at_end ↦
        let e : high ≡ index = omega arith in
        subst (λ i. matches prefix (get_elem? queries i) ≡ false) e last
  ]

  pub search_back_lem :
      (start index : ℕ)
      → search_back prefix queries start ≡ some index
      → (index < start) × Matches index × NoneFrom (suc index) start
  unfolding search_back
  search_back_lem zero index h = cc
  search_back_lem (suc start) index h =
      elim (Bool-cases (matches prefix (get_elem? queries start))) [
        | inl here ↦
            let e : start ≡ index = ground arith in
            (omega arith, subst Matches e here, λ i low below. absurd (omega arith))
        | inr other ↦
            let (below, here, skip) = search_back_lem start index (ground arith) in
            (omega arith, here, NoneFrom-suc (suc index) start skip other)
      ]

  pub search_forward_lem :
      (count start index : ℕ)
      → start ≤ index
      → index < start + count
      → NoneFrom start index
      → Matches index
      → search_forward prefix queries start count ≡ some index
  unfolding search_forward
  search_forward_lem zero start index h k skip here = absurd (omega arith)
  search_forward_lem (suc count) start index h k skip here = elim (dec_lt start index) [
    | yes later ↦ rw (skip start (omega arith) later) (
        search_forward_lem count (start + 1) index (omega arith) (omega arith)
          (λ i low below. skip i (omega arith) below) here)
    | no here_now ↦
        let e : index ≡ start = omega arith in rw (subst Matches e here) (ap some (sym e))
  ]

  pub search_forward-none :
      (count start high : ℕ)
      → start + count ≤ high
      → NoneFrom start high
      → search_forward prefix queries start count ≡ none
  unfolding search_forward
  search_forward-none zero start high h skip = refl
  search_forward-none (suc count) start high h skip = rw (skip start (omega arith) (omega arith)) (
      search_forward-none count (start + 1) high (omega arith)
        (λ i low below. skip i (omega arith) below))

  pub search_forward-Matches :
      (count start index : ℕ)
      → search_forward prefix queries start count ≡ some index
      → Matches index
  unfolding search_forward
  search_forward-Matches zero start index h = cc
  search_forward-Matches (suc count) start index h =
      elim (Bool-cases (matches prefix (get_elem? queries start))) [
        | inl here ↦ let e : start ≡ index = ground arith in subst Matches e here
        | inr other ↦ search_forward-Matches count (start + 1) index (ground arith)
      ]
