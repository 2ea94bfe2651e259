-- ===== src/Picker/Tests.antt =====
-- Runs of the moves of a picker, and its theorems at concrete matches.
use zaku.Prelude.{◌≡◌, refl, ℕ, ◌<◌, Bool, ◌==◌, not, arith}
use zaku.CommandPalette.{up}
use zaku.Picker.{
  search_selectable, select_next, select_previous, select_first, select_last, cycle_selection,
}
use zaku.Picker.Loop.{IsAnswer, search_selectable-IsAnswer}
use zaku.Picker.Moves.{moves-lt}

-- A separator is the third of four matches.
abbrev selectable : ℕ → Bool
selectable index = not (index == 2)

over_the_separator : select_next 4 selectable 1 ≡ 3
unfolding select_next
over_the_separator = refl

search_selectable-IsAnswer_example :
    IsAnswer 4 selectable up 2 (search_selectable 4 selectable 4 up 2 2)
search_selectable-IsAnswer_example = search_selectable-IsAnswer 4 selectable up 2 (omega arith)

moves-lt_example :
    (select_next 4 selectable 3 < 4)
    × (select_previous 4 selectable 3 < 4)
    × (select_first 4 selectable 3 < 4)
    × (select_last 4 selectable 3 < 4)
    × (cycle_selection 4 selectable 3 < 4)
moves-lt_example = moves-lt 4 selectable 3 (omega arith)
