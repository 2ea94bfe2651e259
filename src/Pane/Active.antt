-- ===== src/Pane/Active.antt =====
-- `activate_item` and the bookkeeping of the active tab: what they change, and the invariant.
use zaku.Prelude.{ℕ, ◌-◌, ◌≤◌, ◌<◌, ◌≡◌, Bool, arith, length, get_elem?, leb, if◌then◌else◌}
use zaku.Pane.{Pane, active_item, active_item_id, activate_item}

-- The index of the active tab is in range; in a pane with no tab it is 0.
abbrev pub IsValid : Pane → Type 0
IsValid pane = pane.active_item_index ≤ length pane.items - 1

module _ (pane : Pane) (index : ℕ) (focus : Bool) where
  pub items-activate_item : (activate_item pane index focus).items ≡ pane.items
  unfolding activate_item
  items-activate_item = ground arith

  pub spawned-activate_item :
      (activate_item pane index focus).save_modals_spawned ≡ pane.save_modals_spawned
  unfolding activate_item
  spawned-activate_item = ground arith

  pub preview-activate_item :
      (activate_item pane index focus).preview_item_id ≡ pane.preview_item_id
  unfolding activate_item
  preview-activate_item = ground arith

  -- An index out of range changes nothing.
  pub active-activate_item :
      (activate_item pane index focus).active_item_index
      ≡ (if leb (length pane.items) index then pane.active_item_index else index)
  unfolding activate_item
  active-activate_item = ground arith

  pub activate_item-IsValid : IsValid pane → IsValid (activate_item pane index focus)
  activate_item-IsValid v = ground (arith, items-activate_item, active-activate_item)

  -- The tab at an index in range is active then, and it is the one that the toolbar shows.
  pub active_item-activate_item :
      index < length pane.items
      → (active_item (activate_item pane index focus) ≡ get_elem? pane.items index)
        × ((activate_item pane index focus).toolbar_item
            ≡ active_item_id (activate_item pane index focus))
  unfolding activate_item
  active_item-activate_item h = (ground arith, ground arith)

  pub activate_item-IsValid_of_lt :
      index < length pane.items → IsValid (activate_item pane index focus)
  activate_item-IsValid_of_lt h = ground (arith, items-activate_item, active-activate_item)
