-- ===== src/Picker.antt =====
-- crates/picker/src/picker.rs: the selected match of a picker. What the delegate answers about the
-- matches (`match_count`, `can_select`) is an argument; scrolling and actions are left out.
pub mod Loop
pub mod Moves
mod Tests
use zaku.Prelude.{
  ℕ, zero, suc, ◌+◌, ◌-◌, Bool, true, false, not, Option, none, some, ltb, ◌==◌, if◌then◌else◌,
}
use zaku.CommandPalette.{Direction, up, down}

-- How the search for an index that can be selected ends. The source has no fuel: `out_of_fuel` is a
-- search that goes on.
pub data Search : Type 0 where
  found : ℕ → Search
  exhausted out_of_fuel : Search

unfoldable pub step : ℕ → Direction → ℕ → ℕ
step match_count down current_index =
    if current_index == match_count - 1 then 0 else current_index + 1
step match_count up current_index =
    if current_index == 0 then match_count - 1 else current_index - 1

module _ (match_count : ℕ) (can_select : ℕ → Bool) where
  -- The loop of `set_selected_index`, from the index that it started at and the current one.
  unfoldable pub search_selectable : ℕ → Direction → ℕ → ℕ → Search
  unfolding step
  search_selectable zero direction index current_index = out_of_fuel
  search_selectable (suc fuel) direction index current_index =
      let next_index = step match_count direction current_index in
      let rest = search_selectable fuel direction index next_index in
      if can_select current_index
      then found current_index
      else if index == next_index
      then exhausted
      else rest

  abbrev pub select_found : ℕ → Search → ℕ
  select_found selected_index (found index) = index
  select_found selected_index exhausted = selected_index
  select_found selected_index out_of_fuel = selected_index

  -- The selected index after `set_selected_index`; a loop takes a round for each match at most.
  unfoldable pub set_selected_index : ℕ → Option Direction → ℕ → ℕ
  unfolding search_selectable
  set_selected_index index none selected_index =
      if match_count == 0
      then selected_index
      else if not (can_select index)
      then selected_index
      else index
  set_selected_index index (some direction) selected_index =
      if match_count == 0
      then selected_index
      else select_found selected_index (search_selectable match_count direction index index)

  -- `select_next` and the other moves, where the history answers nothing.
  unfoldable pub select_next : ℕ → ℕ
  unfolding set_selected_index
  select_next selected_index =
      if ltb 0 match_count
      then set_selected_index (if selected_index == match_count - 1 then 0 else selected_index + 1)
          (some down) selected_index
      else selected_index

  unfoldable pub select_previous : ℕ → ℕ
  unfolding set_selected_index
  select_previous selected_index =
      if ltb 0 match_count
      then set_selected_index (if selected_index == 0 then match_count - 1 else selected_index - 1)
          (some up) selected_index
      else selected_index

  unfoldable pub select_first : ℕ → ℕ
  unfolding set_selected_index
  select_first selected_index =
      if ltb 0 match_count then set_selected_index 0 (some down) selected_index else selected_index

  unfoldable pub select_last : ℕ → ℕ
  unfolding set_selected_index
  select_last selected_index =
      if ltb 0 match_count
      then set_selected_index (match_count - 1) (some up) selected_index
      else selected_index

  unfoldable pub cycle_selection : ℕ → ℕ
  unfolding set_selected_index
  cycle_selection selected_index =
      set_selected_index (if selected_index + 1 == match_count then 0 else selected_index + 1)
        (some down) selected_index
