-- ===== src/CommandPalette/Tests.antt =====
-- Runs of the history of the command palette, and its theorems at concrete histories.
use zaku.Prelude.{◌≡◌, refl, none, some, [], ◌∷◌, List}
use zaku.Text.{Str, text}
use zaku.CommandPalette.{QueryHistory, queries_of, add, up, down, select_history}
use zaku.CommandPalette.Valid.{of_parts}
use zaku.CommandPalette.Keys.{select_history-up_down, select_history-add}

abbrev stored : List Str
stored = text "open file" ∷ text "close tab" ∷ text "open folder" ∷ []

abbrev typed : QueryHistory
typed = of_parts none none none

abbrev navigating : QueryHistory
navigating = of_parts (some stored) (some 2) (some (text "open"))

steps_over_close :
    (select_history stored up 0 (text "open folder") navigating).1 ≡ some (text "open file")
unfolding select_history
steps_over_close = refl

select_history-up_down_example :
    let back =
      select_history stored down 3
        (text "open file")
        (select_history stored up 0 (text "open folder") navigating).0 in
    (back.1 ≡ some (text "open folder")) × (back.0.cursor ≡ some 2)
unfolding queries_of
select_history-up_down_example =
    select_history-up_down stored navigating (text "open folder") (text "open file") 3 (refl, refl)
      steps_over_close

select_history-add_example :
    (select_history stored up 0 [] (add stored (text "close tab") navigating)).1
    ≡ some (text "close tab")
select_history-add_example = select_history-add stored (text "close tab") navigating
