-- ===== src/Pane/CloseTests.antt =====
-- `close_items` and `add_item` on a pane of two dirty tabs: the save of the first succeeds and that
-- of the second fails.
use zaku.Prelude.{
  ◌≡◌, refl, arith, ℕ, true, false, none, some, [], ◌∷◌, any, ◌==◌, ok, err, if◌then◌else◌,
}
use zaku.Pane.{
  Item, Pane, singleton, has_id, unpreview_item_if_preview, activate_item, update_active_tab,
  update_toolbar, focus_active_item, deactivate_previous,
}
use zaku.Pane.Close.{remove_item, remove_at, detach, settle}
use zaku.Pane.Save.{Answers, close, save_item, save_at, save_dirty, ask_to_save, after_prompt}
use zaku.Pane.CloseItems.{
  close_items, close_each, close_item, close_all_items, close_active_item, close_item_by_id,
}
use zaku.Pane.Left.{left_items, used_intent, items-close_items}
use zaku.Pane.Kept.{Distinct}
use zaku.Pane.Add.{add_item}
use zaku.Pane.Unique.{NoDuplicates}
use zaku.Pane.Duplicates.{add_item-NoDuplicates}
use zaku.Pane.Unsaved.{close_items-keeps_unsaved}

abbrev tab_of : ℕ → Item
tab_of n = record {
  item_id = n;
  buffer_kind = singleton;
  project_entry_ids = n ∷ [];
  project_path = none;
  preserve_preview = false;
}

abbrev dirty_pane : Pane
dirty_pane = record {
  items = tab_of 1 ∷ tab_of 2 ∷ [];
  active_item_index = 1;
  preview_item_id = none;
  suppress_scroll = true;
  save_modals_spawned = [];
  toolbar_item = some 2;
  effects = [];
}

-- An error is a number; the prompt after the failed save is dismissed.
abbrev first_saves : ℕ → Answers ℕ
first_saves id = record {
  dirty_at_start = true;
  is_dirty = true;
  can_save = true;
  answer = some 0;
  save_result = if id == 1 then ok tt else err 5;
  close_answer = none;
  has_focus = true;
}

saved_all : (close_all_items first_saves dirty_pane none (some 0)).items ≡ tab_of 2 ∷ []
unfolding close_all_items close_items close_each close_item save_item save_at save_dirty
    unpreview_item_if_preview remove_item remove_at detach settle activate_item update_active_tab
    update_toolbar focus_active_item deactivate_previous
saved_all = refl

discarded_all : (close_all_items first_saves dirty_pane none (some 1)).items ≡ []
unfolding close_all_items close_items close_each close_item save_item save_at save_dirty
    unpreview_item_if_preview remove_item remove_at detach settle activate_item update_active_tab
    update_toolbar focus_active_item deactivate_previous
discarded_all = refl

-- The active tab is asked about alone, and its prompt is answered by Save.
active_fails : (close_active_item first_saves dirty_pane none none).items ≡ tab_of 1 ∷ tab_of 2 ∷ []
unfolding close_active_item close_item_by_id close_items close_each close_item save_item save_at
    save_dirty ask_to_save after_prompt unpreview_item_if_preview remove_item remove_at detach
    settle activate_item update_active_tab update_toolbar focus_active_item deactivate_previous
active_fails = refl

dirty_pane-Distinct : Distinct dirty_pane.items
dirty_pane-Distinct = ((refl, tt), (tt, tt))

items-close_items_example :
    (close_items first_saves dirty_pane close (λ id. true) (some 0)).items
    ≡ left_items first_saves dirty_pane
        (λ id. true)
        (used_intent first_saves dirty_pane (λ id. true) close (some 0))
items-close_items_example =
    items-close_items first_saves dirty_pane (λ id. true) close (some 0) dirty_pane-Distinct

close_items-keeps_unsaved_example :
    any (has_id 2) (close_items first_saves dirty_pane close (λ id. true) (some 0)).items ≡ true
close_items-keeps_unsaved_example =
    close_items-keeps_unsaved first_saves dirty_pane (λ id. true) close (some 0) 1 (tab_of 2) 5
      dirty_pane-Distinct refl refl refl refl refl refl refl refl

dirty_pane-NoDuplicates : NoDuplicates dirty_pane.items
dirty_pane-NoDuplicates = ((refl, tt), (tt, tt))

-- The first tab moves behind the second.
add_item-NoDuplicates_example : NoDuplicates (add_item dirty_pane (tab_of 1) true true none).items
add_item-NoDuplicates_example =
    add_item-NoDuplicates dirty_pane (tab_of 1) dirty_pane-NoDuplicates true true none
      ((λ e. refl), ((λ e. absurd (omega (arith, e))), tt))
