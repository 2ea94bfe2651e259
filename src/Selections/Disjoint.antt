-- ===== src/Selections/Disjoint.antt =====
-- crates/editor/src/selections_collection.rs: selections that lie apart, and the text that a list of
-- selections covers.
use zaku.Prelude.{◌≡◌, ℕ, ◌≤◌, ◌<◌, Bool, ◌&&◌, Option, none, some, List, [], ◌∷◌, any, leb}
use zaku.Selections.{Selection}

module _ {Goal : Type 0} where
  -- The first ends before the second starts; where they touch, neither is a cursor.
  abbrev pub Apart : Selection ℕ Goal → Selection ℕ Goal → Type 0
  Apart first second =
      (first.end ≤ second.start)
      × (first.start < second.start)
      × (first.end ≡ second.start → second.start < second.end)

  abbrev pub Follows : Option (Selection ℕ Goal) → Selection ℕ Goal → Type 0
  Follows none second = Unit
  Follows (some first) second = Apart first second

  -- In order and apart, each from the one before it.
  abbrev pub IsDisjointAfter : Option (Selection ℕ Goal) → List (Selection ℕ Goal) → Type 0
  IsDisjointAfter before [] = Unit
  IsDisjointAfter before (selection ∷ selections) =
      (selection.start ≤ selection.end)
      × Follows before selection
      × IsDisjointAfter (some selection) selections

  abbrev pub IsDisjoint : List (Selection ℕ Goal) → Type 0
  IsDisjoint = IsDisjointAfter none

  -- An offset lies in a selection, or at one of its ends.
  abbrev pub covers : ℕ → Selection ℕ Goal → Bool
  covers offset selection = leb selection.start offset && leb offset selection.end

  abbrev pub covered : ℕ → List (Selection ℕ Goal) → Bool
  covered offset = any (covers offset)
