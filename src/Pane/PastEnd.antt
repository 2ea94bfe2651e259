-- ===== src/Pane/PastEnd.antt =====
-- `open_item` in the background, over a preview tab that is active and last.
use zaku.Prelude.{
  ℕ, suc, ◌+◌, ◌<◌, ◌≡◌, refl, Bool, true, false, Option, none, some, arith, length, position,
  get_elem?-none, insert_idx, length-insert_idx, ==_self,
}
use zaku.Pane.{ProjectPath, Item, Pane, active_item, preview_item_idx, set_preview_item_id}
use zaku.Pane.Add.{is_existing, insertion_index_for, insert_new, place_item, add_item}
use zaku.Pane.Close.{close_current_preview_item}
use zaku.Pane.Open.{OpenOptions, shows, set_up_new_item, open_new, open_item}
use zaku.Pane.Preview.{past_end-close_current_preview_item}

-- With the index past the end of a pane with tabs, a tab added in the background leaves it so.
module _ (pane : Pane) (item : Item) (focus : Bool)
    (past : pane.active_item_index ≡ length pane.items) (some_tab : 0 < length pane.items) where
  active_item-insert_new_past_end :
      (insertion : ℕ)
      → insertion ≡ length pane.items
      → active_item (insert_new pane item insertion focus false) ≡ none
  unfolding insert_new
  active_item-insert_new_past_end insertion e = ground (
    arith,
    length-insert_idx pane.items insertion item,
    get_elem?-none (insert_idx pane.items insertion item) (pane.active_item_index + 1),
  )

  insertion_past_end : insertion_index_for pane none ≡ length pane.items
  unfolding insertion_index_for
  insertion_past_end = omega arith

  active_item-add_item_past_end :
      position (is_existing item) pane.items ≡ none
      → active_item (add_item pane item focus false none) ≡ none
  unfolding add_item place_item
  active_item-add_item_past_end e =
      rw (place_item, e)
        (active_item-insert_new_past_end (insertion_index_for pane none) insertion_past_end)

-- The closed pane, and the item that is built for it.
module _ (pane : Pane) (options : OpenOptions) (build_item : Pane → Item)
    (previews : options.allow_preview ≡ true) (background : options.activate ≡ false)
    (active_preview : preview_item_idx pane ≡ some pane.active_item_index)
    (last : suc pane.active_item_index ≡ length pane.items) (other_tab : 0 < pane.active_item_index)
    (fresh : let closed = (close_current_preview_item pane options.has_focus).0 in
      position (is_existing (build_item closed)) closed.items ≡ none) where
  active_item-open_new_past_end : active_item (open_new pane options build_item).0 ≡ none
  unfolding open_new set_up_new_item
  active_item-open_new_past_end =
      let closed = (close_current_preview_item pane options.has_focus).0 in
      let (past, none_left, count) =
        past_end-close_current_preview_item pane options.has_focus pane.active_item_index
          active_preview refl last in
      rw (previews, active_preview, ==_self pane.active_item_index, background, none_left)
        (active_item-add_item_past_end
          (set_preview_item_id closed (some (build_item closed).item_id)) (build_item closed)
          options.focus_item past (omega arith) fresh)

  -- `open_item` with `allow_preview` and without `activate`, for a path that no tab shows and an item
  -- that no tab left is there for, over a preview that is the active tab and the last of several: no
  -- tab of the pane is active then.
  pub active_item-open_item_past_end :
      (entry_id : Option ℕ) (path : ProjectPath)
      → position (shows entry_id path) pane.items ≡ none
      → active_item (open_item pane entry_id path options build_item).0 ≡ none
  unfolding open_item
  active_item-open_item_past_end entry_id path e = rw (open_item, e) active_item-open_new_past_end
