-- ===== src/Pane/Add.antt =====
-- `Pane::add_item`: where a tab goes, and which tab is active then.
use zaku.Prelude.{
  ℕ, ◌+◌, min, Bool, true, false, not, ◌&&◌, Option, none, some, [], ◌∷◌, length, ltb, leb, ◌==◌,
  if◌then◌else◌, insert_idx, erase_idx, position,
}
use zaku.Pane.{
  Item, Pane, add_item_event, emit, opt_eq, unwrap_or, is_none, pred_if, suc_if, is_singleton,
  first, preview_item_idx, activate_item,
}

-- The test that finds a tab to replace: the same item, or one for the same entry.
abbrev pub entry_of : Item → Option ℕ
entry_of item = if is_singleton item.buffer_kind then first item.project_entry_ids else none

abbrev pub is_existing : Item → Item → Bool
is_existing item existing_item =
    if existing_item.item_id == item.item_id
    then true
    else if is_singleton existing_item.buffer_kind
    then elim (first existing_item.project_entry_ids) [
      | none ↦ false
      | some id ↦ opt_eq (some id) (entry_of item)
    ]
    else false

-- The branch of `add_item` that moves the existing tab: the pane, and where the tab is then.
unfoldable pub move_existing : Pane → Item → ℕ → ℕ → Pane × ℕ
move_existing pane item existing_item_index insertion_index =
    let existing_is_active = existing_item_index == pane.active_item_index in
    let remaining = erase_idx pane.items existing_item_index in
    let active = pred_if (ltb existing_item_index pane.active_item_index) pane.active_item_index in
    let target = min insertion_index (length remaining) in
    (
      record pane {
        items = insert_idx remaining target item;
        active_item_index =
            if existing_is_active then target else suc_if (leb target active) active;
      },
      target,
    )

unfoldable pub place_existing : Pane → Item → ℕ → ℕ → Option ℕ → Pane × ℕ
unfolding move_existing
place_existing pane item existing_item_index insertion_index destination_index =
    if existing_item_index == insertion_index
    then (pane, insertion_index)
    else if existing_item_index == pane.active_item_index && is_none destination_index
    then (pane, existing_item_index)
    else move_existing pane item existing_item_index insertion_index

unfoldable pub insertion_index_for : Pane → Option ℕ → ℕ
insertion_index_for pane destination_index =
    min (unwrap_or destination_index (pane.active_item_index + 1)) (length pane.items)

unfoldable pub insert_new : Pane → Item → ℕ → Bool → Bool → Pane
unfolding activate_item preview_item_idx
insert_new pane item insertion_index focus activate =
    let inserted = record pane { items = insert_idx pane.items insertion_index item } in
    let before = leb insertion_index inserted.active_item_index in
    if activate
    then activate_item
        (record inserted {
          active_item_index =
              suc_if
                (before
                  && not (opt_eq (preview_item_idx inserted) (some inserted.active_item_index)))
                inserted.active_item_index;
        })
        insertion_index focus
    else record inserted {
      active_item_index =
          suc_if (before && ltb 1 (length inserted.items)) inserted.active_item_index;
    }

unfoldable pub place_item : Pane → Item → Bool → Bool → Option ℕ → Pane
unfolding place_existing insert_new insertion_index_for activate_item
place_item pane item focus activate destination_index =
    let insertion_index = insertion_index_for pane destination_index in
    elim (position (is_existing item) pane.items) [
      | some existing_item_index ↦
          let (placed, index) =
            place_existing pane item existing_item_index insertion_index destination_index in
          if activate then activate_item placed index focus else placed
      | none ↦ insert_new pane item insertion_index focus activate
    ]

unfoldable pub add_item : Pane → Item → Bool → Bool → Option ℕ → Pane
unfolding place_item
add_item pane item focus activate destination_index =
    emit (place_item pane item focus activate destination_index) (add_item_event item.item_id ∷ [])
