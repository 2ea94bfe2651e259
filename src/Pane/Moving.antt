-- ===== src/Pane/Moving.antt =====
-- The branch of `add_item` that moves the existing tab.
use zaku.Prelude.{
  ℕ, ◌-◌, ◌<◌, ◌≡◌, ◌≢◌, min, some, List, arith, length, get_elem?, erase_idx, length-insert_idx,
  length-erase_idx, get_elem?-insert_idx_self, get_elem?-insert_idx_lt, get_elem?-insert_idx_le,
  get_elem?-erase_idx_lt, get_elem?-erase_idx_le,
}
use zaku.Pane.{Item, Pane, active_item}
use zaku.Pane.Add.{move_existing}
use zaku.Pane.Active.{IsValid}

module _ (pane : Pane) (item : Item) (existing insertion : ℕ) where
  abbrev remaining : List Item
  remaining = erase_idx pane.items existing

  abbrev target : ℕ
  target = min insertion (length remaining)

  -- The tab stands where the result says.
  pub get_elem?-move_existing :
      let moved = move_existing pane item existing insertion in
      get_elem? moved.0.items moved.1 ≡ some item
  unfolding move_existing
  get_elem?-move_existing = get_elem?-insert_idx_self remaining target item (omega arith)

  pub move_existing-IsValid :
      IsValid pane
      → existing < length pane.items
      → IsValid (move_existing pane item existing insertion).0
  unfolding move_existing
  move_existing-IsValid v h =
      ground
        (arith, length-erase_idx pane.items existing h, length-insert_idx remaining target item)

  -- The tab that was active still is, if it is not the one that moves.
  pub active_item-move_existing :
      IsValid pane
      → existing < length pane.items
      → existing ≢ pane.active_item_index
      → active_item (move_existing pane item existing insertion).0 ≡ active_item pane
  unfolding move_existing
  active_item-move_existing v h ne = ground (
    arith,
    length-erase_idx pane.items existing h,
    get_elem?-insert_idx_lt remaining target item pane.active_item_index,
    get_elem?-insert_idx_lt remaining target item (pane.active_item_index - 1),
    get_elem?-insert_idx_le remaining target item pane.active_item_index,
    get_elem?-insert_idx_le remaining target item (pane.active_item_index - 1),
    get_elem?-erase_idx_lt pane.items existing pane.active_item_index,
    get_elem?-erase_idx_le pane.items existing (pane.active_item_index - 1),
  )
