-- ===== src/Selections.antt =====
-- crates/editor/src/selections_collection.rs: the selections of an editor. An offset of the text is a
-- number; anchors, and what the display map makes of them, are a parameter.
pub mod Disjoint
pub mod Merged
pub mod Pending
pub mod Collection
pub mod Numbers
pub mod Ranges
mod Tests
use Prim.Native.Nat.{compare, max}
use zaku.Prelude.{
  ℕ, ◌+◌, ◌-◌, min, Bool, true, false, not, ◌&&◌, ◌||◌, Option, none, some, List, [], ◌∷◌, map, ltb,
  ◌==◌, if◌then◌else◌,
}
use zaku.Order.{Ordering, sort_by}

-- `text::Selection<T>`, with the goal that movements up and down keep.
pub record Selection (P : Type 0) (Goal : Type 0) : Type 0 where
  pub id : ℕ
  pub start : P
  pub end : P
  pub reversed : Bool
  pub goal : Goal

-- `should_merge`
unfoldable pub should_merge : ℕ → ℕ → ℕ → ℕ → Bool → Bool
should_merge first_start first_end second_start second_end sorted =
    let is_overlapping =
      if sorted
      then ltb second_start first_end
      else ltb first_start second_end && ltb second_start first_end in
    let same_start = first_start == second_start in
    let is_cursor_first = first_start == first_end in
    let is_cursor_second = second_start == second_end in
    let cursor_at_boundary =
      (is_cursor_first || is_cursor_second)
      && (first_start == second_start || first_end == second_end) in
    is_overlapping || same_start || cursor_at_boundary

abbrev pub eq_bool : Bool → Bool → Bool
eq_bool true b = b
eq_bool false b = not b

module _ {Goal : Type 0} where
  -- The ends of a selection in order.
  unfoldable pub ordered : Selection ℕ Goal → Selection ℕ Goal
  ordered selection =
      if ltb selection.end selection.start
      then record selection { start = selection.end; end = selection.start; reversed = true }
      else selection

  abbrev pub by_start : Selection ℕ Goal → Selection ℕ Goal → Ordering
  by_start left right = compare left.start right.start

  unfoldable pub merge_into : Selection ℕ Goal → Selection ℕ Goal → Selection ℕ Goal
  merge_into previous selection = record previous {
    start = min previous.start selection.start;
    end = max previous.end selection.end;
  }

  abbrev pub merges : Selection ℕ Goal → Selection ℕ Goal → Bool → Bool
  merges first second sorted = should_merge first.start first.end second.start second.end sorted

  -- The loop of `select`, from the selection that was pushed last.
  unfoldable pub merge_from : Selection ℕ Goal → List (Selection ℕ Goal) → List (Selection ℕ Goal)
  unfolding should_merge merge_into
  merge_from previous [] = previous ∷ []
  merge_from previous (selection ∷ selections) =
      let merged = merge_from (merge_into previous selection) selections in
      let rest = merge_from selection selections in
      if merges previous selection true then merged else previous ∷ rest

  unfoldable pub merge_sorted : List (Selection ℕ Goal) → List (Selection ℕ Goal)
  unfolding merge_from
  merge_sorted [] = []
  merge_sorted (selection ∷ selections) = merge_from selection selections

  -- `select` up to the anchors. The sort of the source leaves the order of selections with one start
  -- open; here they keep theirs.
  unfoldable pub merged_selections : List (Selection ℕ Goal) → List (Selection ℕ Goal)
  unfolding ordered merge_sorted
  merged_selections selections = merge_sorted (sort_by by_start (map ordered selections))

  -- A selection of `all` that takes another one in.
  unfoldable pub widened : Selection ℕ Goal → Selection ℕ Goal → Selection ℕ Goal
  widened pending next = record pending {
    start = if ltb next.start pending.start then next.start else pending.start;
    end = if ltb pending.end next.end then next.end else pending.end;
  }

  -- The iterator of `all` and `all_display`, over the resolved selections.
  unfoldable pub all_with_pending :
      Selection ℕ Goal → List (Selection ℕ Goal) → List (Selection ℕ Goal)
  unfolding should_merge widened
  all_with_pending pending [] = pending ∷ []
  all_with_pending pending (next ∷ rest) =
      let merged = all_with_pending (widened pending next) rest in
      let later = all_with_pending pending rest in
      if merges pending next false
      then merged
      else if ltb next.end pending.start
      then next ∷ later
      else pending ∷ next ∷ rest

  unfoldable pub all_from :
      Option (Selection ℕ Goal) → List (Selection ℕ Goal) → List (Selection ℕ Goal)
  unfolding all_with_pending
  all_from none disjoint = disjoint
  all_from (some pending) disjoint = all_with_pending pending disjoint

  -- `coalesce_selections`, from the selection that was taken last.
  unfoldable pub coalesce_from :
      Selection ℕ Goal → List (Selection ℕ Goal) → List (Selection ℕ Goal)
  unfolding should_merge
  coalesce_from selection [] = selection ∷ []
  coalesce_from selection (next ∷ rest) =
      let merged = coalesce_from (record selection { end = max selection.end next.end }) rest in
      let later = coalesce_from next rest in
      if merges selection next true
      then if eq_bool selection.reversed next.reversed
        then merged
        else record selection { end = max selection.start next.start } ∷ later
      else selection ∷ later
