-- ===== src/Pane/CloseItems.antt =====
-- `Pane::close_items` and the actions that call it, while the project is there: once it is gone,
-- `close_items` returns at once.
use zaku.Prelude.{
  ℕ, Bool, true, ◌&&◌, Option, none, some, List, [], ◌∷◌, ltb, ◌==◌, if◌then◌else◌, Result, ok, err,
  filter, length,
}
use Prim.Native.Nat.{compare}
use zaku.Order.{Ordering, then_with, sort_by}
use zaku.RelPath.{cmp}
use zaku.PathOrder.{bool_cmp, is_nil}
use zaku.Pane.{Item, Pane, ProjectPath, is_none, opt_eq, active_item_id}
use zaku.Pane.Close.{remove_item}
use zaku.Pane.Save.{SaveIntent, save_all, close, skip, is_close, Answers, save_item}

-- The derived order of `ProjectPath`, and of an option of one.
abbrev pub project_path_cmp : ProjectPath → ProjectPath → Ordering
project_path_cmp p q = then_with (compare p.worktree_id q.worktree_id) (cmp p.path q.path)

abbrev pub opt_path_cmp : Option ProjectPath → Option ProjectPath → Ordering
opt_path_cmp none none = Ordering.eq
opt_path_cmp none (some q) = Ordering.lt
opt_path_cmp (some p) none = Ordering.gt
opt_path_cmp (some p) (some q) = project_path_cmp p q

-- The key of the sort: the active item last, and items with no path after those with one.
abbrev pub closing_order : Option ℕ → Item → Item → Ordering
closing_order active_id a b =
    then_with (bool_cmp (opt_eq active_id (some a.item_id)) (opt_eq active_id (some b.item_id))) (
      then_with (bool_cmp (is_none a.project_path) (is_none b.project_path))
        (opt_path_cmp a.project_path b.project_path))

-- The buttons are Save all, Discard all and Cancel.
abbrev pub chosen_intent : Option ℕ → SaveIntent → Option SaveIntent
chosen_intent answer save_intent =
    if opt_eq answer (some 0)
    then some save_all
    else if opt_eq answer (some 1)
    then some skip
    else if opt_eq answer (some 2)
    then none
    else some save_intent

-- The intent of an action is to close, unless it names one.
abbrev pub intent_or_close : Option SaveIntent → SaveIntent
intent_or_close none = close
intent_or_close (some save_intent) = save_intent

-- Whether the item closes once `save_item` is done.
abbrev pub may_close : {E : Type 0} → Option ℕ → Result E Bool → Bool
may_close close_answer (ok success) = success
may_close close_answer (err error) = opt_eq close_answer (some 0)

abbrev pub items_to_close : Pane → (ℕ → Bool) → List Item
items_to_close pane should_close =
    sort_by (closing_order (active_item_id pane))
      (filter (λ item. should_close item.item_id) pane.items)

module _ {E : Type 0} (answers : ℕ → Answers E) where
  -- One round of the loop.
  unfoldable pub close_item : SaveIntent → Pane → Item → Pane
  unfolding save_item remove_item
  close_item save_intent pane item =
      let answer = answers item.item_id in
      let (saved, outcome) = save_item item answer pane save_intent in
      if may_close answer.close_answer outcome
      then (remove_item saved item.item_id true true answer.has_focus).0
      else saved

  unfoldable pub close_each : SaveIntent → List Item → Pane → Pane
  unfolding close_item
  close_each save_intent [] pane = pane
  close_each save_intent (item ∷ rest) pane =
      close_each save_intent rest (close_item save_intent pane item)

  abbrev pub dirty_items : List Item → List Item
  dirty_items = filter (λ item. (answers item.item_id).dirty_at_start)

  -- `all_answer` is the button of the prompt about all dirty items.
  unfoldable pub close_items : Pane → SaveIntent → (ℕ → Bool) → Option ℕ → Pane
  unfolding close_each
  close_items pane save_intent should_close all_answer =
      let closing = items_to_close pane should_close in
      if is_close save_intent && ltb 1 (length (dirty_items closing))
      then elim (chosen_intent all_answer save_intent) [
        | none ↦ pane
        | some intent ↦ close_each intent closing pane
      ]
      else close_each save_intent closing pane

  -- The actions.
  unfoldable pub close_item_by_id : Pane → ℕ → SaveIntent → Option ℕ → Pane
  unfolding close_items
  close_item_by_id pane item_id save_intent all_answer =
      close_items pane save_intent (◌== item_id) all_answer

  unfoldable pub close_active_item : Pane → Option SaveIntent → Option ℕ → Pane
  unfolding close_item_by_id
  close_active_item pane save_intent all_answer = elim (active_item_id pane) [
    | none ↦ pane
    | some item_id ↦ close_item_by_id pane item_id (intent_or_close save_intent) all_answer
  ]

  unfoldable pub close_all_items : Pane → Option SaveIntent → Option ℕ → Pane
  unfolding close_items
  close_all_items pane save_intent all_answer =
      if is_nil pane.items
      then pane
      else close_items pane (intent_or_close save_intent) (λ id. true) all_answer
