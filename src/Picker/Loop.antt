-- ===== src/Picker/Loop.antt =====
-- crates/picker/src/picker.rs: the search for a match that can be selected goes once around and
-- ends.
use native.Mathlib.Decide.{ℕ_discrete}
use zaku.Prelude.{
  ◌≡◌, ◌≢◌, ℕ, zero, suc, ◌+◌, ◌-◌, ◌≤◌, ◌<◌, Bool, true, false, ◌&&◌, ◌||◌, arith, Bool-cases, inl,
  inr, ◌==◌, ==_iff, ltb, leb, if◌then◌else◌,
}
use zaku.CommandPalette.{Direction, up, down}
use zaku.Picker.{Search, found, exhausted, out_of_fuel, step, search_selectable}

-- The rounds until the loop is back at the index that it started at.
abbrev pub rounds_left : ℕ → Direction → ℕ → ℕ → ℕ
rounds_left match_count down index current =
    if ltb current index then index - current else match_count + index - current
rounds_left match_count up index current =
    if ltb index current then current - index else match_count + current - index

-- The loop has looked at a match.
abbrev pub looked_at : Direction → ℕ → ℕ → ℕ → Bool
looked_at down index current i =
    if leb index current then leb index i && ltb i current else leb index i || ltb i current
looked_at up index current i =
    if leb current index then ltb current i && leb i index else ltb current i || leb i index

module _ (match_count : ℕ) (can_select : ℕ → Bool) where
  abbrev pub NoneLookedAt : Direction → ℕ → ℕ → Type 0
  NoneLookedAt direction index current =
      (i : ℕ) → i < match_count → looked_at direction index current i ≡ true → can_select i ≡ false

  -- The search found the first match that can be selected, or none of the matches can be.
  abbrev pub IsAnswer : Direction → ℕ → Search → Type 0
  IsAnswer direction index (found i) =
      (i < match_count) × (can_select i ≡ true) × NoneLookedAt direction index i
  IsAnswer direction index exhausted = (i : ℕ) → i < match_count → can_select i ≡ false
  IsAnswer direction index out_of_fuel = ⊥

  step-lt :
      (direction : Direction) (current : ℕ)
      → current < match_count
      → step match_count direction current < match_count
  unfolding step
  step-lt down current h = ground arith
  step-lt up current h = ground arith

  step-rounds_left :
      (direction : Direction) (index current : ℕ)
      → index < match_count
      → current < match_count
      → index ≢ step match_count direction current
      → rounds_left match_count direction index (step match_count direction current)
        < rounds_left match_count direction index current
  unfolding step
  step-rounds_left down index current h k ne = ground arith
  step-rounds_left up index current h k ne = ground arith

  step-looked_at :
      (direction : Direction) (index current i : ℕ)
      → index < match_count
      → current < match_count
      → i < match_count
      → index ≢ step match_count direction current
      → looked_at direction index (step match_count direction current) i ≡ true
      → i ≢ current
      → looked_at direction index current i ≡ true
  unfolding step
  step-looked_at down index current i h k l ne seen other = ground arith
  step-looked_at up index current i h k l ne seen other = ground arith

  all_looked_at :
      (direction : Direction) (index current i : ℕ)
      → index < match_count
      → current < match_count
      → i < match_count
      → index ≡ step match_count direction current
      → i ≢ current
      → looked_at direction index current i ≡ true
  unfolding step
  all_looked_at down index current i h k l back other = ground arith
  all_looked_at up index current i h k l back other = ground arith

  -- What the round at a match that cannot be selected adds to what is known.
  step-NoneLookedAt :
      (direction : Direction) (index current : ℕ)
      → index < match_count
      → current < match_count
      → can_select current ≡ false
      → NoneLookedAt direction index current
      → index ≢ step match_count direction current
      → NoneLookedAt direction index (step match_count direction current)
  step-NoneLookedAt direction index current h k refused none_yet ne i l seen =
      elim (ℕ_discrete i current) [
        | yes same ↦ rw same refused
        | no other ↦ none_yet i l (step-looked_at direction index current i h k l ne seen other)
      ]

  round_done :
      (direction : Direction) (index current : ℕ)
      → index < match_count
      → current < match_count
      → can_select current ≡ false
      → NoneLookedAt direction index current
      → index ≡ step match_count direction current
      → IsAnswer direction index exhausted
  round_done direction index current h k refused none_yet back i l = elim (ℕ_discrete i current) [
    | yes same ↦ rw same refused
    | no other ↦ none_yet i l (all_looked_at direction index current i h k l back other)
  ]

  search_from-IsAnswer :
      (fuel : ℕ) (direction : Direction) (index current : ℕ)
      → index < match_count
      → current < match_count
      → rounds_left match_count direction index current ≤ fuel
      → NoneLookedAt direction index current
      → IsAnswer direction index
          (search_selectable match_count can_select fuel direction index current)
  unfolding search_selectable
  search_from-IsAnswer zero down index current h k enough none_yet = absurd (ground arith)
  search_from-IsAnswer zero up index current h k enough none_yet = absurd (ground arith)
  search_from-IsAnswer (suc fuel) direction index current h k enough none_yet =
      elim (Bool-cases (can_select current)) [
        | inl here ↦ rw here (k, here, none_yet)
        | inr refused ↦
            rw refused (elim (Bool-cases (index == step match_count direction current)) [
              | inl back ↦ rw back (
                  round_done direction index current h k refused none_yet
                    ((==_iff index (step match_count direction current)).0 back))
              | inr on ↦
                  let ne : index ≢ step match_count direction current = λ e. ground arith in
                  rw on (
                    search_from-IsAnswer fuel direction index (step match_count direction current) h
                      (step-lt direction current k)
                      (omega (arith, step-rounds_left direction index current h k ne))
                      (step-NoneLookedAt direction index current h k refused none_yet ne))
            ])
      ]

  -- From any index in range, as many rounds as there are matches are enough: the search ends on the
  -- first match from the index on, in its direction and around the end, that can be selected; if it
  -- finds none, then no match can be selected.
  pub search_selectable-IsAnswer :
      (direction : Direction) (index : ℕ)
      → index < match_count
      → IsAnswer direction index
          (search_selectable match_count can_select match_count direction index index)
  search_selectable-IsAnswer down index h =
      search_from-IsAnswer match_count down index index h h (ground arith)
        (λ i l seen. absurd (ground arith))
  search_selectable-IsAnswer up index h =
      search_from-IsAnswer match_count up index index h h (ground arith)
        (λ i l seen. absurd (ground arith))
