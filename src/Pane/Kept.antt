-- ===== src/Pane/Kept.antt =====
-- One round of the loop of `close_items`: the tabs that it leaves.
use mathlib.Core.Path.{subst}
use zaku.Prelude.{
  ℕ, zero, suc, ◌≡◌, sym, ap, ◌∙◌, Bool, Option-cases, true, false, not, ◌&&◌, none, some, List, [],
  ◌∷◌, ==_iff, if◌then◌else◌, if-both, filter, filter_congr, filter-All, All, All-always, All-map,
  All-filter, inl, inr, arith, erase_idx, position,
}
use zaku.Text.{contains}
use zaku.Pane.{Item, Pane, has_id, index_for_item_id}
use zaku.Pane.Active.{IsValid}
use zaku.Pane.Close.{remove_item}
use zaku.Pane.Closing.{spawned-remove_item, remove_item-IsValid, items-remove_item}
use zaku.Pane.Save.{SaveIntent, Answers, save_item}
use zaku.Pane.CloseItems.{may_close, close_item}
use zaku.Pane.Saving.{closes, Keeps-save_item, may_close-save_item}

and_true : (b : Bool) → (b && true) ≡ b
and_true b = ground arith

pub and_false : (b : Bool) → (b && false) ≡ false
and_false b = ground arith

-- No two tabs show one item.
abbrev pub Distinct : List Item → Type 0
Distinct [] = Unit
Distinct (x ∷ xs) = All (λ y. has_id x.item_id y ≡ false) xs × Distinct xs

pub Distinct-filter : (p : Item → Bool) (xs : List Item) → Distinct xs → Distinct (filter p xs)
Distinct-filter p [] d = tt
Distinct-filter p (x ∷ xs) d =
    if-both Distinct (p x) (All-filter _ p xs d.0, Distinct-filter p xs d.1)
      (Distinct-filter p xs d.1)

abbrev without : ℕ → List Item → List Item
without id = filter (λ x. not (has_id id x))

All-lacking :
    (id : ℕ) (xs : List Item) → position (has_id id) xs ≡ none → All (λ x. has_id id x ≡ false) xs
All-lacking id [] h = tt
All-lacking id (x ∷ xs) h = (
  ground (arith, Option-cases (position (has_id id) xs)),
  All-lacking id xs (ground (arith, Option-cases (position (has_id id) xs))),
)

without-lacking : (id : ℕ) (xs : List Item) → position (has_id id) xs ≡ none → without id xs ≡ xs
without-lacking id xs h = filter-All _ xs (All-map _ _ xs (λ x k. ap not k) (All-lacking id xs h))

-- The tabs without that of an item, if the item closes.
abbrev pub without_if : Bool → ℕ → List Item → List Item
without_if b id = filter (λ x. not (has_id id x && b))

items-if :
    (b : Bool) (id : ℕ) (xs : List Item) (p q : Pane)
    → p.items ≡ without id xs
    → q.items ≡ xs
    → (if b then p else q).items ≡ without_if b id xs
items-if true id xs p q h k =
    h ∙ filter_congr _ _ xs (All-always _ xs (λ x. ap not (sym (and_true (has_id id x)))))
items-if false id xs p q h k =
    k ∙ sym (filter-All _ xs (All-always _ xs (λ x. ap not (and_false (has_id id x)))))

without_if-lacking :
    (b c : Bool) (id : ℕ) (xs : List Item)
    → position (has_id id) xs ≡ none
    → without_if b id xs ≡ without_if c id xs
without_if-lacking b c id xs h =
    filter_congr _ _ xs (All-map _ _ xs (λ x k. rw k) (All-lacking id xs h))

pub position-zero :
    {A : Type 0} (p : A → Bool) (x : A) (xs : List A) → position p (x ∷ xs) ≡ some 0 → p x ≡ true
position-zero p x xs h = ground (arith, Option-cases (position p xs))

pub position-suc :
    {A : Type 0} (p : A → Bool) (x : A) (xs : List A) (i : ℕ)
    → position p (x ∷ xs) ≡ some (suc i)
    → (p x ≡ false) × (position p xs ≡ some i)
position-suc p x xs i h = ground (arith, Option-cases (position p xs))

without-others :
    (id : ℕ) (x : Item) (xs : List Item)
    → has_id id x ≡ true
    → All (λ y. has_id x.item_id y ≡ false) xs
    → without id (x ∷ xs) ≡ xs
without-others id x xs h a =
    rw (filter, h)
      (filter-All _ xs (All-map _ _ xs (λ y k. rw (sym ((==_iff x.item_id id).0 h)) (ap not k)) a))

erase_idx-position :
    (id : ℕ) (xs : List Item) (i : ℕ)
    → Distinct xs
    → position (has_id id) xs ≡ some i
    → erase_idx xs i ≡ without id xs
erase_idx-position id [] i d h = cc
erase_idx-position id (x ∷ xs) zero d h =
    sym (without-others id x xs (position-zero (has_id id) x xs h) d.0)
erase_idx-position id (x ∷ xs) (suc i) d h =
    let e = position-suc (has_id id) x xs i h in
    ap (x ∷◌) (erase_idx-position id xs i d.1 e.1) ∙ rw (filter, e.0)

module _ (pane : Pane) (id : ℕ) (activate focus has_focus : Bool) where
  items-remove_item-without :
      Distinct pane.items
      → (remove_item pane id activate focus has_focus).0.items ≡ without id pane.items
  unfolding remove_item
  items-remove_item-without d = elim (Option-cases (index_for_item_id pane id)) [
    | inl h ↦ rw (remove_item, h) (sym (without-lacking id pane.items h))
    | inr (i, h) ↦
        items-remove_item pane id activate focus has_focus i h
        ∙ erase_idx-position id pane.items i d h
  ]

module _ {E : Type 0} (answers : ℕ → Answers E) (intent : SaveIntent) where
  -- Whether the item of an id closes, in a pane with these prompts open.
  abbrev pub closes_id : List ℕ → ℕ → Bool
  closes_id spawned id = closes intent (contains id spawned) (answers id)

  -- After one round the same prompts are open, and the active index is still in range.
  pub record Round (pane after : Pane) : Type 0 where
    pub spawned : after.save_modals_spawned ≡ pane.save_modals_spawned
    pub valid : IsValid pane → IsValid after

  pub close_item-Round :
      (pane : Pane) (item : Item) → Round pane (close_item answers intent pane item)
  unfolding close_item
  close_item-Round pane item =
      let answer = answers item.item_id in
      let saved = (save_item item answer pane intent).0 in
      let k = Keeps-save_item item answer pane intent in
      if-both (Round pane) (may_close answer.close_answer (save_item item answer pane intent).1)
        (record {
          spawned = spawned-remove_item saved item.item_id true true answer.has_focus ∙ k.spawned;
          valid =
              λ v. remove_item-IsValid saved item.item_id true true answer.has_focus (k.valid v);
        })
        (record { spawned = k.spawned; valid = k.valid })

  -- The tabs after the item was saved or not, and after it closes or not.
  pub items-close_item :
      (pane : Pane) (item : Item)
      → Distinct pane.items
      → (close_item answers intent pane item).items
        ≡ without_if (closes_id pane.save_modals_spawned item.item_id) item.item_id pane.items
  unfolding close_item
  items-close_item pane item d =
      let id = item.item_id in
      let answer = answers id in
      let saved = (save_item item answer pane intent).0 in
      let outcome = may_close answer.close_answer (save_item item answer pane intent).1 in
      let k = Keeps-save_item item answer pane intent in
      items-if outcome id pane.items (remove_item saved id true true answer.has_focus).0 saved
        (items-remove_item-without saved id true true answer.has_focus
            (subst Distinct (sym k.items) d)
          ∙ ap (without id) k.items)
        k.items
      ∙ elim (Option-cases (index_for_item_id pane id)) [
        | inl h ↦ without_if-lacking outcome (closes_id pane.save_modals_spawned id) id pane.items h
        | inr (index, h) ↦
            ap (λ b. without_if b id pane.items)
              (may_close-save_item item answer pane intent index h)
      ]
