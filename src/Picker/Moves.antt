-- ===== src/Picker/Moves.antt =====
-- crates/picker/src/picker.rs: the keys that move the selection keep it in range.
use zaku.Prelude.{
  ℕ, ◌+◌, ◌-◌, ◌<◌, Bool, not, Option, none, some, arith, ◌==◌, ltb, if◌then◌else◌, if-both,
}
use zaku.CommandPalette.{Direction, up, down}
use zaku.Picker.{
  Search, found, exhausted, out_of_fuel, search_selectable, select_found, set_selected_index,
  select_next, select_previous, select_first, select_last, cycle_selection,
}
use zaku.Picker.Loop.{IsAnswer, search_selectable-IsAnswer}

module _ (match_count : ℕ) (can_select : ℕ → Bool) where
  select_found-lt :
      (direction : Direction) (index selected_index : ℕ) (answer : Search)
      → selected_index < match_count
      → IsAnswer match_count can_select direction index answer
      → select_found match_count can_select selected_index answer < match_count
  select_found-lt direction index selected_index (found i) h answer = answer.0
  select_found-lt direction index selected_index exhausted h answer = h
  select_found-lt direction index selected_index out_of_fuel h answer = h

  set_selected_index-lt :
      (index : ℕ) (direction : Option Direction) (selected_index : ℕ)
      → index < match_count
      → selected_index < match_count
      → set_selected_index match_count can_select index direction selected_index < match_count
  unfolding set_selected_index
  set_selected_index-lt index none selected_index h k =
      if-both (◌< match_count) (match_count == 0) k
        (if-both (◌< match_count) (not (can_select index)) k h)
  set_selected_index-lt index (some direction) selected_index h k =
      if-both (◌< match_count) (match_count == 0) k (
        select_found-lt direction index selected_index
          (search_selectable match_count can_select match_count direction index index) k
          (search_selectable-IsAnswer match_count can_select direction index h))

  -- A selection in range stays in range, whichever of the keys moves it and whichever matches can be
  -- selected.
  pub moves-lt :
      (selected_index : ℕ)
      → selected_index < match_count
      → (select_next match_count can_select selected_index < match_count)
        × (select_previous match_count can_select selected_index < match_count)
        × (select_first match_count can_select selected_index < match_count)
        × (select_last match_count can_select selected_index < match_count)
        × (cycle_selection match_count can_select selected_index < match_count)
  unfolding select_next select_previous select_first select_last cycle_selection
  moves-lt selected_index h =
      let some_match = ltb 0 match_count in
      let next_index = if selected_index == match_count - 1 then 0 else selected_index + 1 in
      let previous_index = if selected_index == 0 then match_count - 1 else selected_index - 1 in
      let cycled = if selected_index + 1 == match_count then 0 else selected_index + 1 in
      let moved = λ (index : ℕ) (d : Direction) (k : index < match_count).
        set_selected_index-lt index (some d) selected_index k h in
      (
        if-both (◌< match_count) some_match (moved next_index down (ground arith)) h,
        if-both (◌< match_count) some_match (moved previous_index up (ground arith)) h,
        if-both (◌< match_count) some_match (moved 0 down (omega arith)) h,
        if-both (◌< match_count) some_match (moved (match_count - 1) up (omega arith)) h,
        moved cycled down (ground arith),
      )
