-- ===== src/Pane/Duplicates.antt =====
-- `add_item` and `close_items` give no item, and no project entry alone, a second tab.
use zaku.Prelude.{
  ℕ, ◌≡◌, sym, Bool, ◌==◌, Option, Option-cases, none, some, List, [], ◌∷◌, All, All-map,
  All-filter, inl, inr, if◌then◌else◌, if-both, filter, erase_idx, position, arith, ◌&&◌,
}
use mathlib.Core.Path.{subst}
use zaku.Pane.{Item, Pane, is_none, activate_item}
use zaku.Pane.Active.{items-activate_item}
use zaku.Pane.Add.{
  is_existing, move_existing, place_existing, insertion_index_for, insert_new, place_item, add_item,
}
use zaku.Pane.Save.{SaveIntent, Answers}
use zaku.Pane.CloseItems.{close_items}
use zaku.Pane.Kept.{Distinct}
use zaku.Pane.Left.{left_items, used_intent, items-close_items}
use zaku.Pane.Unique.{
  NoDuplicates, IsNew, IsItself, IsNew-of_position, insert_idx-NoDuplicates, erase_idx-NoDuplicates,
  IsNew-erase_idx,
}

NoDuplicates-Distinct : (xs : List Item) → NoDuplicates xs → Distinct xs
NoDuplicates-Distinct [] d = tt
NoDuplicates-Distinct (x ∷ xs) d =
    (All-map _ _ xs (λ y n. ground (arith, n)) d.0, NoDuplicates-Distinct xs d.1)

filter-NoDuplicates :
    (p : Item → Bool) (xs : List Item) → NoDuplicates xs → NoDuplicates (filter p xs)
filter-NoDuplicates p [] d = tt
filter-NoDuplicates p (x ∷ xs) d =
    if-both NoDuplicates (p x) (All-filter _ p xs d.0, filter-NoDuplicates p xs d.1)
      (filter-NoDuplicates p xs d.1)

module _ (pane : Pane) (item : Item) (d : NoDuplicates pane.items) where
  activate-NoDuplicates :
      (activate focus : Bool) (index : ℕ) (p : Pane)
      → NoDuplicates p.items
      → NoDuplicates (if activate then activate_item p index focus else p).items
  activate-NoDuplicates activate focus index p n =
      if-both (λ (q : Pane). NoDuplicates q.items) activate
        (subst NoDuplicates (sym (items-activate_item p index focus)) n) n

  move_existing-NoDuplicates :
      (index target : ℕ)
      → All (IsItself item) pane.items
      → position (is_existing item) pane.items ≡ some index
      → NoDuplicates (move_existing pane item index target).0.items
  unfolding move_existing
  move_existing-NoDuplicates index target s h =
      insert_idx-NoDuplicates item (erase_idx pane.items index) _
        (IsNew-erase_idx item pane.items index s d h) (erase_idx-NoDuplicates pane.items index d)

  place_existing-NoDuplicates :
      (index target : ℕ) (destination : Option ℕ)
      → All (IsItself item) pane.items
      → position (is_existing item) pane.items ≡ some index
      → NoDuplicates (place_existing pane item index target destination).0.items
  unfolding place_existing
  place_existing-NoDuplicates index target destination s h =
      if-both (λ (r : Pane × ℕ). NoDuplicates r.0.items) (index == target) d
        (if-both (λ (r : Pane × ℕ). NoDuplicates r.0.items)
          (index == pane.active_item_index && is_none destination) d
          (move_existing-NoDuplicates index target s h))

  insert_new-NoDuplicates :
      (target : ℕ) (focus activate : Bool)
      → IsNew item pane.items
      → NoDuplicates (insert_new pane item target focus activate).items
  unfolding insert_new
  insert_new-NoDuplicates target focus activate n =
      let inserted = insert_idx-NoDuplicates item pane.items target n d in
      if-both (λ (q : Pane). NoDuplicates q.items) activate
        (subst NoDuplicates (sym (items-activate_item _ target focus)) inserted) inserted

  -- In a pane where no two tabs show one item and no two tabs show one project entry alone, and
  -- where a tab with the id of the added item shows that item as it is: no two tabs do either after
  -- add_item, whether the item is new, takes the place of a tab or moves.
  pub add_item-NoDuplicates :
      (focus activate : Bool) (destination : Option ℕ)
      → All (IsItself item) pane.items
      → NoDuplicates (add_item pane item focus activate destination).items
  unfolding add_item place_item
  add_item-NoDuplicates focus activate destination s =
      elim (Option-cases (position (is_existing item) pane.items)) [
        | inl h ↦
            rw (add_item, place_item, h)
              (insert_new-NoDuplicates (insertion_index_for pane destination) focus activate
                (IsNew-of_position item pane.items h))
        | inr (index, h) ↦
            rw (add_item, place_item, h)
              (let target = insertion_index_for pane destination in
                let placed = place_existing pane item index target destination in
                activate-NoDuplicates activate focus placed.1 placed.0
                  (place_existing-NoDuplicates index target destination s h))
      ]

-- In a pane where no two tabs show one item and no two tabs show one project entry alone: no two
-- tabs do either after close_items, whatever the intent and the answers.
pub close_items-NoDuplicates :
    {E : Type 0} (answers : ℕ → Answers E) (pane : Pane) (should_close : ℕ → Bool)
    (intent : SaveIntent) (all_answer : Option ℕ)
    → NoDuplicates pane.items
    → NoDuplicates (close_items answers pane intent should_close all_answer).items
close_items-NoDuplicates answers pane should_close intent all_answer d =
    subst NoDuplicates
      (sym (
        items-close_items answers pane should_close intent all_answer
          (NoDuplicates-Distinct pane.items d)))
      (left_items-NoDuplicates (used_intent answers pane should_close intent all_answer))
  where
    left_items-NoDuplicates :
        (used : Option SaveIntent) → NoDuplicates (left_items answers pane should_close used)
    left_items-NoDuplicates none = d
    left_items-NoDuplicates (some used) = filter-NoDuplicates _ pane.items d
