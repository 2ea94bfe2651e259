-- ===== src/Selections/Collection.antt =====
-- crates/editor/src/selections_collection.rs: the collection that an editor keeps, and what changes
-- it. The buffer turns offsets into anchors; it is a parameter.
use zaku.Prelude.{
  ℕ, ◌+◌, Bool, true, false, not, ◌||◌, Option, none, some, List, [], ◌∷◌, map, ltb, ◌==◌,
  if◌then◌else◌,
}
use zaku.Selections.{Selection, merged_selections}

pub data Bias : Type 0 where
  bias_left bias_right : Bias

-- `MultiBufferSnapshot`, by what the collection asks of it, and the equality of selections.
pub record Buffer (Anchor Goal : Type 0) : Type 0 where
  pub anchor_after : ℕ → Anchor
  pub anchor_at : ℕ → Bias → Anchor
  pub anchor_is_gt : Anchor → Anchor → Bool
  pub clip_offset : ℕ → Bias → ℕ
  pub same_selections : List (Selection Anchor Goal) → List (Selection Anchor Goal) → Bool
  pub anchor_min : Anchor
  pub goal_none : Goal

-- `SelectMode` of crates/editor/src/editor.rs
pub data SelectMode (Anchor : Type 0) : Type 0 where
  mode_character mode_all : SelectMode Anchor
  mode_word mode_line : Anchor → Anchor → SelectMode Anchor

pub record PendingSelection (Anchor Goal : Type 0) : Type 0 where
  pub selection : Selection Anchor Goal
  pub mode : SelectMode Anchor

pub record SelectionsCollection (Anchor Goal : Type 0) : Type 0 where
  pub next_selection_id : ℕ
  pub disjoint : List (Selection Anchor Goal)
  pub pending : Option (PendingSelection Anchor Goal)
  pub select_mode : SelectMode Anchor
  pub is_extending : Bool

-- `MutableSelectionsCollection`
pub record Mutable (Anchor Goal : Type 0) : Type 0 where
  pub collection : SelectionsCollection Anchor Goal
  pub selections_changed : Bool

abbrev pub is_some {ℓ} : {A : Type ℓ} → Option A → Bool
is_some none = false
is_some (some a) = true

abbrev pub is_empty_list {ℓ} : {A : Type ℓ} → List A → Bool
is_empty_list [] = true
is_empty_list (x ∷ xs) = false

module _ {Anchor Goal : Type 0} (buffer : Buffer Anchor Goal) where
  unfoldable pub new : SelectionsCollection Anchor Goal
  new = record {
    next_selection_id = 1;
    disjoint = [];
    pending = some (record {
      selection = record {
        id = 0;
        start = buffer.anchor_min;
        end = buffer.anchor_min;
        reversed = false;
        goal = buffer.goal_none;
      };
      mode = mode_character;
    });
    select_mode = mode_character;
    is_extending = false;
  }

  unfoldable pub selection_to_anchor_selection : Selection ℕ Goal → Selection Anchor Goal
  selection_to_anchor_selection selection = record {
    id = selection.id;
    start = buffer.anchor_after selection.start;
    end =
        buffer.anchor_at selection.end
          (if selection.start == selection.end then bias_right else bias_left);
    reversed = selection.reversed;
    goal = selection.goal;
  }

  unfoldable pub new_selection_id : Mutable Anchor Goal → ℕ × Mutable Anchor Goal
  new_selection_id m =
      let id = m.collection.next_selection_id in
      (id, record m { collection = record m.collection { next_selection_id = id + 1 } })

  unfoldable pub clear_disjoint : Mutable Anchor Goal → Mutable Anchor Goal
  clear_disjoint m =
      if not (is_empty_list m.collection.disjoint)
      then record { collection = record m.collection { disjoint = [] }; selections_changed = true }
      else m

  unfoldable pub clear_pending : Mutable Anchor Goal → Mutable Anchor Goal
  clear_pending m =
      if is_some m.collection.pending
      then record { collection = record m.collection { pending = none }; selections_changed = true }
      else m

  unfoldable pub set_pending :
      Selection Anchor Goal → SelectMode Anchor → Mutable Anchor Goal → Mutable Anchor Goal
  set_pending selection mode m = record {
    collection = record m.collection {
      pending = some (record { selection = selection; mode = mode });
    };
    selections_changed = true;
  }

  unfoldable pub set_pending_anchor_range :
      Anchor → Anchor → SelectMode Anchor → Mutable Anchor Goal → Mutable Anchor Goal
  unfolding new_selection_id
  set_pending_anchor_range start end mode m =
      let reversed = buffer.anchor_is_gt start end in
      let (id, m1) = new_selection_id m in
      record {
        collection = record m1.collection {
          pending = some (record {
            selection = record {
              id = id;
              start = if reversed then end else start;
              end = if reversed then start else end;
              reversed = reversed;
              goal = buffer.goal_none;
            };
            mode = mode;
          });
        };
        selections_changed = true;
      }

  -- The end of `select`, from the new selections.
  unfoldable pub set_disjoint :
      List (Selection Anchor Goal) → Mutable Anchor Goal → Mutable Anchor Goal
  set_disjoint new_disjoint m =
      let had_pending = is_some m.collection.pending in
      if not (buffer.same_selections m.collection.disjoint new_disjoint) || had_pending
      then record {
        collection = record m.collection { disjoint = new_disjoint; pending = none };
        selections_changed = true;
      }
      else record m { collection = record m.collection { pending = none } }

  -- `select`, of selections whose ends are offsets.
  unfoldable pub select : List (Selection ℕ Goal) → Mutable Anchor Goal → Mutable Anchor Goal
  unfolding merged_selections selection_to_anchor_selection set_disjoint
  select selections m =
      set_disjoint (map selection_to_anchor_selection (merged_selections selections)) m

  unfoldable pub range_selection : ℕ → ℕ × ℕ → Selection ℕ Goal
  range_selection id (range_start, range_end) =
      let start = buffer.clip_offset range_start bias_left in
      let end = buffer.clip_offset range_end bias_right in
      let reversed = ltb end start in
      record {
        id = id;
        start = if reversed then end else start;
        end = if reversed then start else end;
        reversed = reversed;
        goal = buffer.goal_none;
      }

  -- The closure of `select_ranges` over all ranges, each of which takes a new number.
  unfoldable pub range_selections :
      List (ℕ × ℕ) → Mutable Anchor Goal → List (Selection ℕ Goal) × Mutable Anchor Goal
  unfolding new_selection_id range_selection
  range_selections [] m = ([], m)
  range_selections (range ∷ ranges) m =
      let (id, m1) = new_selection_id m in
      let (selections, m2) = range_selections ranges m1 in
      (range_selection id range ∷ selections, m2)

  unfoldable pub select_ranges : List (ℕ × ℕ) → Mutable Anchor Goal → Mutable Anchor Goal
  unfolding range_selections select
  select_ranges ranges m = let (selections, m1) = range_selections ranges m in select selections m1

  -- `change_with`; `none` is the failed assertion that a selection is left.
  unfoldable pub change_with :
      (Mutable Anchor Goal → Mutable Anchor Goal)
      → SelectionsCollection Anchor Goal
      → Option (Bool × SelectionsCollection Anchor Goal)
  change_with change collection =
      let m = change (record { collection = collection; selections_changed = false }) in
      if not (is_empty_list m.collection.disjoint) || is_some m.collection.pending
      then some (m.selections_changed, m.collection)
      else none

-- `Iterator::max_by_key` by the number: of equal ones the last.
unfoldable pub max_by_id :
    {Anchor Goal : Type 0} → List (Selection Anchor Goal) → Option (Selection Anchor Goal)
max_by_id [] = none
max_by_id (s ∷ ss) = elim (max_by_id ss) [
  | none ↦ some s
  | some best ↦ if ltb best.id s.id then some s else some best
]

-- `newest_anchor`; `none` is the failed `expect`.
unfoldable pub newest_anchor :
    {Anchor Goal : Type 0} → SelectionsCollection Anchor Goal → Option (Selection Anchor Goal)
unfolding max_by_id
newest_anchor collection = elim collection.pending [
  | some pending ↦ some pending.selection
  | none ↦ max_by_id collection.disjoint
]
