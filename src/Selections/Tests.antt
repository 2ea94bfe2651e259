-- ===== src/Selections/Tests.antt =====
-- Runs of the selections' code, and their theorems at concrete selections.
use zaku.Prelude.{
  ◌≡◌, refl, ℕ, ◌+◌, Bool, true, false, ◌&&◌, none, some, List, [], ◌∷◌, arith, any, All, length,
}
use zaku.Selections.{Selection, merged_selections, all_from}
use zaku.Selections.Disjoint.{IsDisjoint, covered}
use zaku.Selections.Merged.{between, merged_selections-IsDisjoint, merged_selections-covered}
use zaku.Selections.Pending.{all_from-IsDisjoint, all_from-touching}
use zaku.Selections.Collection.{
  Buffer, SelectionsCollection, is_empty_list, new, select_ranges, change_with,
}
use zaku.Selections.Numbers.{Numbered}
use zaku.Selections.Ranges.{change_with-select_ranges}

abbrev sel : ℕ → ℕ → ℕ → Selection ℕ (Unit {0})
sel id start end = record { id = id; start = start; end = end; reversed = false; goal = tt }

-- Out of order, one backwards, two that overlap.
abbrev given : List (Selection ℕ (Unit {0}))
given = sel 3 9 12 ∷ sel 1 0 5 ∷ sel 2 7 3 ∷ []

merged_test : merged_selections given ≡ sel 1 0 7 ∷ sel 3 9 12 ∷ []
unfolding merged_selections
merged_test = refl

merged_selections-IsDisjoint_example : IsDisjoint (merged_selections given)
merged_selections-IsDisjoint_example = merged_selections-IsDisjoint given

merged_selections-covered_example : covered 6 (merged_selections given) ≡ any (between 6) given
merged_selections-covered_example = merged_selections-covered 6 given

abbrev pending : Selection ℕ (Unit {0})
pending = sel 4 6 10

abbrev kept : List (Selection ℕ (Unit {0}))
kept = sel 1 0 5 ∷ sel 2 7 8 ∷ sel 3 12 15 ∷ []

all_from-IsDisjoint_example : IsDisjoint (all_from (some pending) kept)
all_from-IsDisjoint_example =
    all_from-IsDisjoint pending kept (omega arith) (omega arith)
      ((λ e. omega arith), ((λ e. omega arith), ((λ e. omega arith), tt)))

all_from-touching_example :
    (all_from (some (sel 3 5 8)) (sel 1 0 1 ∷ sel 2 2 5 ∷ [])
      ≡ sel 1 0 1 ∷ sel 3 5 8 ∷ sel 2 2 5 ∷ [])
    × ¬ IsDisjoint (all_from (some (sel 3 5 8)) (sel 1 0 1 ∷ sel 2 2 5 ∷ []))
all_from-touching_example =
    all_from-touching (sel 3 5 8) (sel 2 2 5) (sel 1 0 1 ∷ []) [] (omega arith) refl (omega arith)
      (omega arith, tt, (omega arith, (omega arith, omega arith, λ e. absurd (omega arith)), tt))

abbrev ranges : List (ℕ × ℕ)
ranges = (3, 1) ∷ (2, 6) ∷ []

-- A buffer whose anchors are offsets.
abbrev both_empty : List (Selection ℕ (Unit {0})) → List (Selection ℕ (Unit {0})) → Bool
both_empty a b = is_empty_list a && is_empty_list b

both_empty-eq : (a b : List (Selection ℕ (Unit {0}))) → both_empty a b ≡ true → a ≡ b
both_empty-eq [] [] h = refl
both_empty-eq [] (s ∷ ss) h = cc
both_empty-eq (s ∷ ss) b h = cc

abbrev buffer : Buffer ℕ (Unit {0})
buffer = record {
  anchor_after = λ offset. offset;
  anchor_at = λ offset bias. offset;
  anchor_is_gt = λ a b. false;
  clip_offset = λ offset bias. offset;
  same_selections = both_empty;
  anchor_min = 0;
  goal_none = tt;
}

change_with-select_ranges_example :
    (changed : Bool) × (after : SelectionsCollection ℕ (Unit {0})) × (change_with buffer
        (select_ranges buffer ranges)
        (new buffer)
      ≡ some (changed, after))
    × (after.pending ≡ none)
    × (after.next_selection_id ≡ (new buffer).next_selection_id + length ranges)
    × All (Numbered (new buffer).next_selection_id after.next_selection_id) after.disjoint
change_with-select_ranges_example =
    change_with-select_ranges buffer (3, 1) ((2, 6) ∷ []) (new buffer) both_empty-eq
