-- ===== src/Pane/Closing.antt =====
-- `remove_item` and `close_current_preview_item`: which tab is active after a tab is gone.
use mathlib.Core.Path.{subst}
use zaku.Prelude.{
  ℕ, suc, ◌-◌, ◌<◌, ◌≡◌, ◌≢◌, ◌∙◌, refl, sym, ap, Bool, true, false, Option, none, some, arith,
  length, get_elem?, ltb, if◌then◌else◌, Option-cases, inl, inr, ==_iff, erase_idx,
  length-erase_idx, get_elem?-erase_idx_lt, get_elem?-erase_idx_le, position-lt, get_elem?-position,
  get_elem?-none,
}
use zaku.Pane.{Item, Pane, active_item, has_id, item_for_entry, index_for_item_id, update_toolbar}
use zaku.Pane.Close.{
  active_after, detach, settle, remove_at, remove_item, handle_deleted_project_item,
}
use zaku.Pane.Active.{IsValid, items-activate_item, spawned-activate_item, active-activate_item}

module _ (pane : Pane) (activates focus : Bool) where
  items-settle : (settle pane activates focus).items ≡ pane.items
  unfolding settle update_toolbar
  items-settle = ground (arith, items-activate_item pane pane.active_item_index focus)

  active-settle : (settle pane activates focus).active_item_index ≡ pane.active_item_index
  unfolding settle update_toolbar
  active-settle = ground (arith, active-activate_item pane pane.active_item_index focus)

  spawned-settle : (settle pane activates focus).save_modals_spawned ≡ pane.save_modals_spawned
  unfolding settle update_toolbar
  spawned-settle = ground (arith, spawned-activate_item pane pane.active_item_index focus)

module _ (pane : Pane) (index : ℕ) (item : Item) (activate focus has_focus : Bool) where
  spawned-remove_at :
      (remove_at pane index item activate focus has_focus).save_modals_spawned
      ≡ pane.save_modals_spawned
  unfolding remove_at detach
  spawned-remove_at = spawned-settle (detach pane index item focus has_focus) _ focus

  pub items-remove_at :
      (remove_at pane index item activate focus has_focus).items ≡ erase_idx pane.items index
  unfolding remove_at detach
  items-remove_at = items-settle (detach pane index item focus has_focus) _ focus

  pub active-remove_at :
      (remove_at pane index item activate focus has_focus).active_item_index
      ≡ active_after (length (erase_idx pane.items index)) index pane.active_item_index
  unfolding remove_at detach
  active-remove_at = active-settle (detach pane index item focus has_focus) _ focus

  remove_at-IsValid :
      IsValid pane
      → index < length pane.items
      → IsValid (remove_at pane index item activate focus has_focus)
  remove_at-IsValid v h =
      ground (arith, items-remove_at, active-remove_at, length-erase_idx pane.items index h)

  -- A tab that is not active leaves the active one as it was.
  active_item-remove_at :
      IsValid pane
      → index < length pane.items
      → index ≢ pane.active_item_index
      → active_item (remove_at pane index item activate focus has_focus) ≡ active_item pane
  active_item-remove_at v h ne = ground (
    arith,
    items-remove_at,
    active-remove_at,
    length-erase_idx pane.items index h,
    get_elem?-erase_idx_lt pane.items index pane.active_item_index,
    get_elem?-erase_idx_le pane.items index (pane.active_item_index - 1),
  )

  -- In place of the active tab comes the next one, or the one before if it was the last.
  active_item-remove_at_active :
      index < length pane.items
      → index ≡ pane.active_item_index
      → active_item (remove_at pane index item activate focus has_focus) ≡ (
          if ltb (suc index) (length pane.items)
          then get_elem? pane.items (suc index)
          else if ltb 0 index
          then get_elem? pane.items (index - 1)
          else none)
  active_item-remove_at_active h e = ground (
    arith,
    items-remove_at,
    active-remove_at,
    length-erase_idx pane.items index h,
    get_elem?-erase_idx_lt pane.items index (index - 1),
    get_elem?-erase_idx_le pane.items index index,
    get_elem?-none (erase_idx pane.items index) 0,
  )

module _ (pane : Pane) (id : ℕ) (activate focus has_focus : Bool) where
  -- `remove_item` of an item that is there takes its tab out and returns it.
  pub remove_item-found :
      (index : ℕ)
      → index_for_item_id pane id ≡ some index
      → (item : Item) × (get_elem? pane.items index ≡ some item)
        × (item.item_id ≡ id)
        × (remove_item pane id activate focus has_focus
            ≡ (remove_at pane index item activate focus has_focus, some item))
  unfolding remove_item
  remove_item-found index e =
      let (item, at, same) = get_elem?-position (has_id id) pane.items index e in
      (item, at, (==_iff item.item_id id).0 same, rw (remove_item, e, at))

  pub items-remove_item :
      (index : ℕ)
      → index_for_item_id pane id ≡ some index
      → (remove_item pane id activate focus has_focus).0.items ≡ erase_idx pane.items index
  items-remove_item index e =
      let (item, _, _, r) = remove_item-found index e in
      ap (λ (p : Pane × Option Item). p.0.items) r
      ∙ items-remove_at pane index item activate focus has_focus

  pub spawned-remove_item :
      (remove_item pane id activate focus has_focus).0.save_modals_spawned
      ≡ pane.save_modals_spawned
  unfolding remove_item
  spawned-remove_item = elim (Option-cases (index_for_item_id pane id)) [
    | inl e ↦ rw (remove_item, e)
    | inr (index, e) ↦
        let (item, _, _, r) = remove_item-found index e in
        ap (λ (p : Pane × Option Item). p.0.save_modals_spawned) r
        ∙ spawned-remove_at pane index item activate focus has_focus
  ]

  -- Whatever the id, the active index stays in range.
  pub remove_item-IsValid : IsValid pane → IsValid (remove_item pane id activate focus has_focus).0
  unfolding remove_item
  remove_item-IsValid v = elim (Option-cases (index_for_item_id pane id)) [
    | inl e ↦ rw (remove_item, e) v
    | inr (index, e) ↦
        let (item, _, _, r) = remove_item-found index e in
        subst (λ (p : Pane × Option Item). IsValid p.0) (sym r)
          (remove_at-IsValid pane index item activate focus has_focus v
            (position-lt (has_id id) pane.items index e))
  ]

  -- Unless the active tab goes, the active tab stays.
  pub active_item-remove_item :
      IsValid pane
      → index_for_item_id pane id ≢ some pane.active_item_index
      → active_item (remove_item pane id activate focus has_focus).0 ≡ active_item pane
  unfolding remove_item
  active_item-remove_item v ne = elim (Option-cases (index_for_item_id pane id)) [
    | inl e ↦ rw (remove_item, e)
    | inr (index, e) ↦
        let (item, _, _, r) = remove_item-found index e in
        ap (λ (p : Pane × Option Item). active_item p.0) r
        ∙ active_item-remove_at pane index item activate focus has_focus v
            (position-lt (has_id id) pane.items index e) (λ q. ne (e ∙ ap some q))
  ]

  -- Where the active tab goes, the next one becomes active, or the one before if there is none.
  pub active_item-remove_item_active :
      index_for_item_id pane id ≡ some pane.active_item_index
      → active_item (remove_item pane id activate focus has_focus).0 ≡ (
          if ltb (suc pane.active_item_index) (length pane.items)
          then get_elem? pane.items (suc pane.active_item_index)
          else if ltb 0 pane.active_item_index
          then get_elem? pane.items (pane.active_item_index - 1)
          else none)
  active_item-remove_item_active e =
      let (item, _, _, r) = remove_item-found pane.active_item_index e in
      let h = position-lt (has_id id) pane.items pane.active_item_index e in
      ap (λ (p : Pane × Option Item). active_item p.0) r
      ∙ active_item-remove_at_active pane pane.active_item_index item activate focus has_focus h
          refl

-- The deletion of a project entry keeps the active index in range.
pub handle_deleted_project_item-IsValid :
    (pane : Pane) (entry_id : ℕ) (has_focus : Bool)
    → IsValid pane
    → IsValid (handle_deleted_project_item pane entry_id has_focus).0
unfolding handle_deleted_project_item
handle_deleted_project_item-IsValid pane entry_id has_focus v =
    elim (Option-cases (item_for_entry pane entry_id)) [
      | inl e ↦ rw (handle_deleted_project_item, e) v
      | inr (item, e) ↦
          rw (handle_deleted_project_item, e)
            (remove_item-IsValid pane item.item_id false true has_focus v)
    ]
