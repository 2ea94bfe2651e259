-- ===== src/Pane/Background.antt =====
-- `add_item` that does not activate the item, in a pane of any tabs.
use zaku.Prelude.{
  ℕ, ◌≡◌, refl, ap, ◌∙◌, Bool, true, false, ◌||◌, Option, none, some, List, [], ◌∷◌, arith, length,
  get_elem?, if◌then◌else◌, Bool-cases, inl, inr, position, ==_iff, ==_self, get_elem?-position,
}
use zaku.Pane.{Item, Pane, active_item, opt_eq}
use zaku.Pane.Add.{
  is_existing, move_existing, place_existing, insertion_index_for, insert_new, place_item, add_item,
}
use zaku.Pane.Active.{IsValid}
use zaku.Pane.Adding.{
  insertion-le, is_existing_self, get_elem?-place_existing, active_item-add_item,
}

abbrev pub is_nil : List Item → Bool
is_nil [] = true
is_nil (item ∷ items) = false

-- The added item is shown although it is not activated: there is no other tab, or the tab that it
-- replaces is the active one.
abbrev pub takes_over : Pane → Item → Bool
takes_over pane item =
    is_nil pane.items
    || opt_eq (position (is_existing item) pane.items) (some pane.active_item_index)

abbrev pub ShowsItem : Item → Pane → Type 0
ShowsItem item pane =
    (shown : Item) × (active_item pane ≡ some shown) × (is_existing item shown ≡ true)

-- The active tab after `item` was added to `pane`.
abbrev pub AfterAdding : Pane → Item → Pane → Type 0
AfterAdding pane item added =
    if takes_over pane item then ShowsItem item added else active_item added ≡ active_item pane

nil_of_is_nil : (items : List Item) → is_nil items ≡ true → items ≡ []
nil_of_is_nil [] h = refl
nil_of_is_nil (item ∷ items) h = cc

eq_of_opt_eq :
    (found : Option ℕ) (index : ℕ) → opt_eq found (some index) ≡ true → found ≡ some index
eq_of_opt_eq none index h = cc
eq_of_opt_eq (some i) index h = ap some ((==_iff i index).0 h)

module _ (pane : Pane) (item : Item) (focus : Bool) (destination : Option ℕ) where
  -- The active index follows the active tab that is moved.
  active-place_existing :
      (insertion : ℕ)
      → let placed = place_existing pane item pane.active_item_index insertion destination in
        placed.0.active_item_index ≡ placed.1
  unfolding place_existing move_existing
  active-place_existing insertion = ground arith

  add_item-replaces_active :
      position (is_existing item) pane.items ≡ some pane.active_item_index
      → ShowsItem item (add_item pane item focus false destination)
  unfolding add_item place_item
  add_item-replaces_active e =
      let i = pane.active_item_index in
      let (found, at, match) = get_elem?-position (is_existing item) pane.items i e in
      let insertion = insertion_index_for pane destination in
      let placed = place_existing pane item i insertion destination in
      let (shown, stands, shown_match) =
        get_elem?-place_existing pane item i insertion destination found at match in
      (
        shown,
        rw (place_item, e)
            (ap (get_elem? placed.0.items) (active-place_existing insertion) ∙ stands),
        shown_match,
      )

  insert_new-first :
      IsValid pane
      → pane.items ≡ []
      → (insertion : ℕ) → insertion ≡ 0
      → active_item (insert_new pane item insertion focus false) ≡ some item
  unfolding insert_new
  insert_new-first v e insertion z =
      let start : pane.active_item_index ≡ 0 = omega (arith, ap length e) in
      rw (insert_new, e, z, start) refl

  add_item-first :
      IsValid pane → pane.items ≡ [] → ShowsItem item (add_item pane item focus false destination)
  unfolding add_item place_item
  add_item-first v e =
      let none_found : position (is_existing item) pane.items ≡ none = rw e refl in
      let insertion = insertion_index_for pane destination in
      let at_start : insertion ≡ 0 = omega (arith, insertion-le pane destination, ap length e) in
      (
        item,
        rw (place_item, none_found) (insert_new-first v e insertion at_start),
        is_existing_self item,
      )

  -- An item that is added without being activated leaves the active tab of the pane the same, except
  -- that in a pane without tabs, or where the tab that it replaces is the active one, the item or the
  -- tab that was there for it is the active one. The active index has to be in range.
  pub active_item-add_item_background :
      IsValid pane → AfterAdding pane item (add_item pane item focus false destination)
  active_item-add_item_background v = elim (Bool-cases (is_nil pane.items)) [
    | inl empty ↦ rw empty (add_item-first v (nil_of_is_nil pane.items empty))
    | inr some_tab ↦
        elim (Bool-cases
          (opt_eq (position (is_existing item) pane.items) (some pane.active_item_index))) [
            | inl active ↦
                rw (some_tab, active)
                  (add_item-replaces_active (
                    eq_of_opt_eq (position (is_existing item) pane.items) pane.active_item_index
                      active))
            | inr other ↦
                rw (some_tab, other)
                  (active_item-add_item pane item focus destination v
                    (λ e. cc (ap is_nil e, some_tab))
                    (λ e. cc (
                      ap (λ found. opt_eq found (some pane.active_item_index)) e,
                      other,
                      ==_self pane.active_item_index,
                    )))
          ]
  ]
