-- ===== src/Pane/Left.antt =====
-- `close_items`: which tabs are left.
use mathlib.Core.Path.{subst}
use zaku.Prelude.{
  ℕ, ◌≡◌, refl, sym, ap, ◌∙◌, Bool, Bool-cases, true, not, ◌&&◌, ◌||◌, Option, Option-cases, none,
  some, List, [], ◌∷◌, ==_iff, if◌then◌else◌, if-both, filter, filter-filter, filter_congr,
  filter-All, any, any-filter, any_congr, any-and, All, All-always, All-map, inl, inr, arith, ltb,
  length,
}
use zaku.Order.{any-sort_by}
use zaku.Text.{contains}
use zaku.Pane.{Item, Pane, has_id, active_item_id}
use zaku.Pane.Active.{IsValid}
use zaku.Pane.Save.{SaveIntent, is_close, Answers}
use zaku.Pane.CloseItems.{
  close_item, close_each, dirty_items, items_to_close, close_items, chosen_intent, closing_order,
}
use zaku.Pane.Saving.{closes}
use zaku.Pane.Kept.{
  Distinct, Distinct-filter, and_false, close_item-Round, items-close_item, closes_id,
}

not-or : (a b : Bool) → (not a && not b) ≡ not (a || b)
not-or a b = ground arith

module _ {E : Type 0} (answers : ℕ → Answers E) (intent : SaveIntent) where
  -- Whether the tab is that of one of the items, and this one closes.
  abbrev is_closed : List ℕ → List Item → Item → Bool
  is_closed spawned closing x =
      any (λ j. has_id j.item_id x && closes_id answers intent spawned j.item_id) closing

  items-close_each :
      (closing : List Item) (pane : Pane)
      → Distinct pane.items
      → (close_each answers intent closing pane).items
        ≡ filter (λ x. not (is_closed pane.save_modals_spawned closing x)) pane.items
  unfolding close_each
  items-close_each [] pane d = sym (filter-All _ pane.items (All-always _ pane.items (λ x. refl)))
  items-close_each (item ∷ rest) pane d =
      let after = close_item answers intent pane item in
      let first = items-close_item answers intent pane item d in
      items-close_each rest after (subst Distinct (sym first) (Distinct-filter _ pane.items d))
      ∙ ap (λ s. filter (λ x. not (is_closed s rest x)) after.items)
          (close_item-Round answers intent pane item).spawned
      ∙ ap (filter (λ x. not (is_closed pane.save_modals_spawned rest x))) first
      ∙ filter-filter _ _ pane.items
      ∙ filter_congr _ _ pane.items (All-always _ pane.items (λ x. not-or _ _))

  close_each-IsValid :
      (closing : List Item) (pane : Pane)
      → IsValid pane
      → IsValid (close_each answers intent closing pane)
  unfolding close_each
  close_each-IsValid [] pane v = v
  close_each-IsValid (item ∷ rest) pane v =
      close_each-IsValid rest (close_item answers intent pane item)
        ((close_item-Round answers intent pane item).valid v)

All-any_self : (xs : List Item) → All (λ x. any (λ j. has_id j.item_id x) xs ≡ true) xs
All-any_self [] = tt
All-any_self (x ∷ xs) = (ground arith, All-map _ _ xs (λ y h. ground arith) (All-any_self xs))

-- Of items with the same id, what depends on the id only is the same.
has_id-and :
    (S C : ℕ → Bool) (x j : Item)
    → (S j.item_id && (has_id j.item_id x && C j.item_id))
      ≡ (has_id j.item_id x && (S x.item_id && C x.item_id))
has_id-and S C x j = elim (Bool-cases (has_id j.item_id x)) [
  | inl e ↦ rw e (ap (λ id. S id && C id) (sym ((==_iff x.item_id j.item_id).0 e)))
  | inr e ↦ rw e (and_false (S j.item_id))
]

any-chosen :
    (S C : ℕ → Bool) (xs : List Item) (x : Item)
    → any (λ j. has_id j.item_id x) xs ≡ true
    → any (λ j. has_id j.item_id x && C j.item_id) (filter (λ j. S j.item_id) xs)
      ≡ (S x.item_id && C x.item_id)
any-chosen S C xs x h =
    any-filter _ _ xs
    ∙ any_congr _ _ xs (has_id-and S C x)
    ∙ any-and _ (S x.item_id && C x.item_id) xs
    ∙ ap (λ b. b && (S x.item_id && C x.item_id)) h

module _ {E : Type 0} (answers : ℕ → Answers E) (pane : Pane) (should_close : ℕ → Bool) where
  items-close_each_chosen :
      (intent : SaveIntent)
      → Distinct pane.items
      → (close_each answers intent (items_to_close pane should_close) pane).items
        ≡ filter
            (λ x. not (
              should_close x.item_id
              && closes_id answers intent pane.save_modals_spawned x.item_id))
            pane.items
  items-close_each_chosen intent d =
      items-close_each answers intent (items_to_close pane should_close) pane d
      ∙ filter_congr _ _ pane.items (
          All-map _ _ pane.items
            (λ x h. ap not (
              any-sort_by (closing_order (active_item_id pane))
                (λ j.
                  has_id j.item_id x && closes_id answers intent pane.save_modals_spawned j.item_id)
                (filter (λ j. should_close j.item_id) pane.items)
              ∙ any-chosen should_close (closes_id answers intent pane.save_modals_spawned)
                  pane.items x h))
            (All-any_self pane.items))

  -- Whether there is one prompt for all, and the intent after it: none if it was cancelled.
  abbrev pub asks_about_all : SaveIntent → Bool
  asks_about_all intent =
      is_close intent && ltb 1 (length (dirty_items answers (items_to_close pane should_close)))

  abbrev pub used_intent : SaveIntent → Option ℕ → Option SaveIntent
  used_intent intent all_answer =
      if asks_about_all intent then chosen_intent all_answer intent else some intent

  -- The tabs that were not asked to close, and those whose item does not close.
  abbrev pub left_items : Option SaveIntent → List Item
  left_items none = pane.items
  left_items (some intent) =
      filter
        (λ x. not (
          should_close x.item_id
          && closes intent (contains x.item_id pane.save_modals_spawned) (answers x.item_id)))
        pane.items

  -- In a pane that shows no item in two tabs: close_items leaves the tabs, in their order, that were
  -- not asked to close, and of the others those whose item does not close by the intent that the
  -- prompt about all items leaves, the prompts that were open and the answers about the item. If
  -- the prompt about all is cancelled, all tabs are left.
  pub items-close_items :
      (intent : SaveIntent) (all_answer : Option ℕ)
      → Distinct pane.items
      → (close_items answers pane intent should_close all_answer).items
        ≡ left_items (used_intent intent all_answer)
  unfolding close_items
  items-close_items intent all_answer d = elim (Bool-cases (asks_about_all intent)) [
    | inl h ↦ elim (Option-cases (chosen_intent all_answer intent)) [
      | inl k ↦ rw (close_items, h, k)
      | inr (chosen, k) ↦ rw (close_items, h, k) (items-close_each_chosen chosen d)
    ]
    | inr h ↦ rw (close_items, h) (items-close_each_chosen intent d)
  ]

  -- Whatever is answered, the index of the active tab stays in range.
  pub close_items-IsValid :
      (intent : SaveIntent) (all_answer : Option ℕ)
      → IsValid pane
      → IsValid (close_items answers pane intent should_close all_answer)
  unfolding close_items
  close_items-IsValid intent all_answer v =
      let closing = items_to_close pane should_close in
      if-both IsValid (asks_about_all intent)
        (elim (Option-cases (chosen_intent all_answer intent)) [
          | inl k ↦ rw k v
          | inr (chosen, k) ↦ rw k (close_each-IsValid answers chosen closing pane v)
        ])
        (close_each-IsValid answers intent closing pane v)
