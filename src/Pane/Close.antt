-- ===== src/Pane/Close.antt =====
-- `Pane::remove_item` and `close_current_preview_item`.
use zaku.Prelude.{
  ℕ, ◌-◌, Bool, true, false, not, ◌&&◌, ◌||◌, Option, none, some, [], ◌∷◌, ◌++◌, length, get_elem?,
  ltb, leb, ◌==◌, if◌then◌else◌, erase_idx,
}
use zaku.Pane.{
  Item, Pane, deactivated, on_removed, focus_pane, removed_item_event, set_preview_item_id,
  is_active_preview_item, pred_if, index_for_item_id, preview_item_idx, item_for_entry,
  update_toolbar, activate_item,
}

-- The index of the active tab once the tab at `item_index` is gone and `count` tabs are left.
abbrev pub active_after : ℕ → ℕ → ℕ → ℕ
active_after count item_index active =
    if count == 0
    then 0
    else if ltb item_index active
    then active - 1
    else if leb count active
    then count - 1
    else active

-- The tab at `item_index` leaves. `has_focus` is what the window answers about the pane's focus.
unfoldable pub detach : Pane → ℕ → Item → Bool → Bool → Pane
detach pane item_index item focus has_focus =
    let should_focus_pane =
      item_index == pane.active_item_index && length pane.items == 1 && (focus || has_focus) in
    let remaining = erase_idx pane.items item_index in
    record pane {
      items = remaining;
      active_item_index = active_after (length remaining) item_index pane.active_item_index;
      preview_item_id =
          if is_active_preview_item pane item.item_id then none else pane.preview_item_id;
      effects =
          pane.effects
          ++ removed_item_event item.item_id
            ∷ ((if should_focus_pane then focus_pane ∷ [] else [])
                ++ deactivated item.item_id ∷ on_removed item.item_id ∷ []);
    }

-- The end of `remove_item`: the tab that takes the place of the active one is activated, or the
-- toolbar is brought up to date.
unfoldable pub settle : Pane → Bool → Bool → Pane
unfolding update_toolbar activate_item
settle pane activates focus =
    if activates then activate_item pane pane.active_item_index focus else update_toolbar pane

unfoldable pub remove_at : Pane → ℕ → Item → Bool → Bool → Bool → Pane
unfolding detach settle
remove_at pane item_index item activate focus has_focus =
    let removed = detach pane item_index item focus has_focus in
    settle removed
      (activate && item_index == pane.active_item_index && not (length removed.items == 0)) focus

-- `remove_item` of the tab at an index that the search gave.
abbrev pub remove_found : Pane → ℕ → Option Item → Bool → Bool → Bool → Pane × Option Item
remove_found pane item_index none activate focus has_focus = (pane, none)
remove_found pane item_index (some item) activate focus has_focus =
    (remove_at pane item_index item activate focus has_focus, some item)

unfoldable pub remove_item : Pane → ℕ → Bool → Bool → Bool → Pane × Option Item
unfolding remove_at
remove_item pane item_id activate focus has_focus = elim (index_for_item_id pane item_id) [
  | none ↦ (pane, none)
  | some item_index ↦
      remove_found pane item_index (get_elem? pane.items item_index) activate focus has_focus
]

-- The preview tab closes with no tab activated in its place: the index of the active tab is set
-- back by hand. The result is the index of the closed tab, unless that was the last.
unfoldable pub close_preview_at : Pane → ℕ → ℕ → Bool → Pane × Option ℕ
unfolding remove_item
close_preview_at pane item_index item_id has_focus =
    let removed = (remove_item (set_preview_item_id pane none) item_id false false has_focus).0 in
    (
      record removed {
        active_item_index = pred_if (ltb item_index pane.active_item_index) pane.active_item_index;
      },
      (if ltb item_index (length removed.items) then some item_index else none),
    )

abbrev pub close_found : Pane → Option ℕ → Option ℕ → Bool → Pane × Option ℕ
close_found pane none item_id has_focus = (pane, none)
close_found pane (some item_index) none has_focus = (pane, none)
close_found pane (some item_index) (some item_id) has_focus =
    close_preview_at pane item_index item_id has_focus

unfoldable pub close_current_preview_item : Pane → Bool → Pane × Option ℕ
unfolding close_preview_at preview_item_idx
close_current_preview_item pane has_focus =
    close_found pane (preview_item_idx pane) pane.preview_item_id has_focus

-- The tab that shows the entry alone leaves, with no tab activated in its place but the focus
-- asked for; the result says whether there was one.
unfoldable pub handle_deleted_project_item : Pane → ℕ → Bool → Pane × Bool
unfolding remove_item item_for_entry
handle_deleted_project_item pane entry_id has_focus = elim (item_for_entry pane entry_id) [
  | none ↦ (pane, false)
  | some item ↦ ((remove_item pane item.item_id false true has_focus).0, true)
]
