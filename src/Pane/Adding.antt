-- ===== src/Pane/Adding.antt =====
-- `add_item` keeps the active index in range, shows the item that it is told to activate, and
-- otherwise leaves the active tab alone.
use zaku.Prelude.{
  ℕ, ◌≤◌, ◌<◌, ◌≡◌, ◌≢◌, ◌∙◌, ap, Bool, true, false, Option, some, [], arith, length, get_elem?,
  if◌then◌else◌, Option-cases, Bool-cases, inl, inr, ◌&&◌, ◌==◌, ==_self, position, length-pos,
  length-insert_idx, get_elem?-insert_idx_self, get_elem?-insert_idx_lt, get_elem?-insert_idx_le,
  position-lt, lt-length_of_get_elem?, get_elem?-position,
}
use zaku.Pane.{Item, Pane, active_item, activate_item, is_none}
use zaku.Pane.Add.{
  is_existing, place_existing, insertion_index_for, insert_new, place_item, add_item,
}
use zaku.Pane.Moving.{move_existing-IsValid, get_elem?-move_existing, active_item-move_existing}
use zaku.Pane.Active.{
  IsValid, activate_item-IsValid, activate_item-IsValid_of_lt, active_item-activate_item,
}

pub is_existing_self : (item : Item) → is_existing item item ≡ true
is_existing_self item = rw (==_self item.item_id)

module _ (pane : Pane) (item : Item) (existing insertion : ℕ) (destination : Option ℕ) where
  place_existing-IsValid :
      IsValid pane
      → existing < length pane.items
      → IsValid (place_existing pane item existing insertion destination).0
  unfolding place_existing
  place_existing-IsValid v h =
      ground (arith, move_existing-IsValid pane item existing insertion v h)

  active_item-place_existing :
      IsValid pane
      → existing < length pane.items
      → existing ≢ pane.active_item_index
      → active_item (place_existing pane item existing insertion destination).0 ≡ active_item pane
  unfolding place_existing
  active_item-place_existing v h ne =
      ground (arith, active_item-move_existing pane item existing insertion v h ne)

  -- Where the result says, there is the existing tab or the item.
  pub get_elem?-place_existing :
      (found : Item)
      → get_elem? pane.items existing ≡ some found
      → is_existing item found ≡ true
      → let placed = place_existing pane item existing insertion destination in
        (shown : Item) × (get_elem? placed.0.items placed.1 ≡ some shown)
        × (is_existing item shown ≡ true)
  unfolding place_existing
  get_elem?-place_existing found e m = elim (Bool-cases (existing == insertion)) [
    | inl same ↦ (found, ground (arith, e), m)
    | inr moves ↦ elim (Bool-cases (existing == pane.active_item_index && is_none destination)) [
      | inl stays ↦ (found, rw (place_existing, moves, stays) e, m)
      | inr goes ↦ (
        item,
        rw (place_existing, moves, goes) (get_elem?-move_existing pane item existing insertion),
        is_existing_self item,
      )
    ]
  ]

module _ (pane : Pane) (item : Item) (insertion : ℕ) (focus : Bool)
    (h : insertion ≤ length pane.items) where
  insert_new-IsValid :
      IsValid pane → (activate : Bool) → IsValid (insert_new pane item insertion focus activate)
  unfolding insert_new
  insert_new-IsValid v true =
      activate_item-IsValid_of_lt _ insertion focus
        (omega (arith, length-insert_idx pane.items insertion item))
  insert_new-IsValid v false = ground (arith, length-insert_idx pane.items insertion item)

  active_item-insert_new :
      IsValid pane
      → pane.items ≢ []
      → active_item (insert_new pane item insertion focus false) ≡ active_item pane
  unfolding insert_new
  active_item-insert_new v ne = ground (
    arith,
    length-pos pane.items ne,
    length-insert_idx pane.items insertion item,
    get_elem?-insert_idx_lt pane.items insertion item pane.active_item_index,
    get_elem?-insert_idx_le pane.items insertion item pane.active_item_index,
  )

  active_item-insert_new_activate :
      active_item (insert_new pane item insertion focus true) ≡ some item
  unfolding insert_new
  active_item-insert_new_activate =
      (active_item-activate_item _ insertion focus
        (omega (arith, length-insert_idx pane.items insertion item))).0
      ∙ get_elem?-insert_idx_self pane.items insertion item h

pub insertion-le :
    (pane : Pane) (destination : Option ℕ)
    → insertion_index_for pane destination ≤ length pane.items
unfolding insertion_index_for
insertion-le pane destination = omega arith

activated-IsValid :
    (placed : Pane × ℕ) (focus activate : Bool)
    → IsValid placed.0
    → IsValid (if activate then activate_item placed.0 placed.1 focus else placed.0)
activated-IsValid placed focus true v = activate_item-IsValid placed.0 placed.1 focus v
activated-IsValid placed focus false v = v

module _ (pane : Pane) (item : Item) (focus : Bool) (destination : Option ℕ) where
  -- The active index stays in range, whatever the item and the place.
  pub add_item-IsValid :
      (activate : Bool) → IsValid pane → IsValid (add_item pane item focus activate destination)
  unfolding add_item place_item
  add_item-IsValid activate v = elim (Option-cases (position (is_existing item) pane.items)) [
    | inl e ↦
        rw (place_item, e)
          (insert_new-IsValid pane item _ focus (insertion-le pane destination) v activate)
    | inr (i, e) ↦
        rw (place_item, e)
          (activated-IsValid _ focus activate (
            place_existing-IsValid pane item i _ destination v
              (position-lt (is_existing item) pane.items i e)))
  ]

  -- An item that is added without being activated leaves the active tab what it was, unless that
  -- tab is the one that the item replaces.
  pub active_item-add_item :
      IsValid pane
      → pane.items ≢ []
      → position (is_existing item) pane.items ≢ some pane.active_item_index
      → active_item (add_item pane item focus false destination) ≡ active_item pane
  unfolding add_item place_item
  active_item-add_item v ne other = elim (Option-cases (position (is_existing item) pane.items)) [
    | inl e ↦
        rw (place_item, e)
          (active_item-insert_new pane item _ focus (insertion-le pane destination) v ne)
    | inr (i, e) ↦
        rw (place_item, e)
          (active_item-place_existing pane item i _ destination v
            (position-lt (is_existing item) pane.items i e) (λ q. other (e ∙ ap some q)))
  ]

  -- An item that is added and activated is shown, even where the active index was out of range:
  -- the active tab is the item, or the tab that was there for it.
  pub active_item-add_item_activate :
      (shown : Item) × (active_item (add_item pane item focus true destination) ≡ some shown)
      × (is_existing item shown ≡ true)
  unfolding add_item place_item
  active_item-add_item_activate = elim (Option-cases (position (is_existing item) pane.items)) [
    | inl e ↦ (
      item,
      rw (place_item, e)
          (active_item-insert_new_activate pane item _ focus (insertion-le pane destination)),
      is_existing_self item,
    )
    | inr (i, e) ↦
        let (found, at, match) = get_elem?-position (is_existing item) pane.items i e in
        let to = place_existing pane item i (insertion_index_for pane destination) destination in
        let (shown, placed, shown_match) =
          get_elem?-place_existing pane item i (insertion_index_for pane destination) destination
            found at match in
        (
          shown,
          rw (place_item, e)
              ((active_item-activate_item to.0 to.1 focus
                  (lt-length_of_get_elem? to.0.items to.1 placed)).0
                ∙ placed),
          shown_match,
        )
  ]

-- A pane with an active tab has its index in range.
pub IsValid-of_active_item :
    (pane : Pane) {item : Item} → active_item pane ≡ some item → IsValid pane
IsValid-of_active_item pane h =
    omega (arith, lt-length_of_get_elem? pane.items pane.active_item_index h)
