-- ===== src/Pane/Unsaved.antt =====
-- `close_items` loses no change without a word from the person.
use zaku.Prelude.{
  ℕ, ◌≡◌, ap, ◌∙◌, Bool, true, false, not, ◌&&◌, Option, Option-cases, some, ==_self, err, any,
  any-filter, any_of_get_elem?, inl, inr, arith, get_elem?,
}
use zaku.Text.{contains}
use zaku.Pane.{Item, Pane, opt_eq, has_id}
use zaku.Pane.Save.{SaveIntent, save_one, save_all, close, skip, is_skip, Answers}
use zaku.Pane.CloseItems.{close_items}
use zaku.Pane.Saving.{closes, is_saved_or_given_up}
use zaku.Pane.Kept.{Distinct, and_false}
use zaku.Pane.Left.{used_intent, left_items, items-close_items}

closes-unsaved :
    {E : Type 0} (intent : SaveIntent) (is_open : Bool) (answers : Answers E) (error : E)
    → is_skip intent ≡ false
    → answers.is_dirty ≡ true
    → answers.can_save ≡ true
    → answers.save_result ≡ err error
    → opt_eq answers.answer (some 1) ≡ false
    → opt_eq answers.close_answer (some 0) ≡ false
    → closes intent is_open answers ≡ false
closes-unsaved save_one is_open answers error s dirty can save answer anyway =
    simp (can, is_saved_or_given_up, save, anyway)
closes-unsaved save_all is_open answers error s dirty can save answer anyway =
    simp (dirty, can, is_saved_or_given_up, save, anyway)
closes-unsaved close is_open answers error s dirty can save answer anyway =
    simp (dirty, can, is_saved_or_given_up, save, answer, anyway, and_false)
closes-unsaved skip is_open answers error s dirty can save answer anyway = cc

module _ {E : Type 0} (answers : ℕ → Answers E) (pane : Pane) (should_close : ℕ → Bool) where
  any-left_items :
      (intent : SaveIntent) (index : ℕ) (item : Item)
      → get_elem? pane.items index ≡ some item
      → closes intent (contains item.item_id pane.save_modals_spawned) (answers item.item_id)
        ≡ false
      → any (has_id item.item_id) (left_items answers pane should_close (some intent)) ≡ true
  any-left_items intent index item g c =
      any-filter _ _ pane.items
      ∙ any_of_get_elem?
          (λ x.
            not (
              should_close x.item_id
              && closes intent (contains x.item_id pane.save_modals_spawned) (answers x.item_id))
            && has_id item.item_id x)
          pane.items index g (rw (c, and_false (should_close item.item_id), ==_self item.item_id))

  is_skip-used_intent :
      (intent : SaveIntent) (all_answer : Option ℕ) (used : SaveIntent)
      → is_skip intent ≡ false
      → opt_eq all_answer (some 1) ≡ false
      → used_intent answers pane should_close intent all_answer ≡ some used
      → is_skip used ≡ false
  is_skip-used_intent intent all_answer used s a h = ground arith

  -- An item of a tab is dirty and can be saved; the intent is not to skip the save, and if there was
  -- a prompt about all items, its answer was not to discard all (button 1). If the save of the item,
  -- should it run, fails, and the person neither answers its prompt by Don't Save (button 1) nor closes
  -- it without saving (button 0 of the other prompt), then a tab of the item is left.
  pub close_items-keeps_unsaved :
      (intent : SaveIntent) (all_answer : Option ℕ) (index : ℕ) (item : Item) (error : E)
      → Distinct pane.items
      → get_elem? pane.items index ≡ some item
      → is_skip intent ≡ false
      → opt_eq all_answer (some 1) ≡ false
      → (answers item.item_id).is_dirty ≡ true
      → (answers item.item_id).can_save ≡ true
      → (answers item.item_id).save_result ≡ err error
      → opt_eq (answers item.item_id).answer (some 1) ≡ false
      → opt_eq (answers item.item_id).close_answer (some 0) ≡ false
      → any (has_id item.item_id) (close_items answers pane intent should_close all_answer).items
        ≡ true
  close_items-keeps_unsaved intent all_answer index item error d g s a dirty can save answer
        anyway =
      ap (any (has_id item.item_id))
        (items-close_items answers pane should_close intent all_answer d)
      ∙ elim (Option-cases (used_intent answers pane should_close intent all_answer)) [
        | inl h ↦ rw h (any_of_get_elem? _ pane.items index g (==_self item.item_id))
        | inr (used, h) ↦ rw h (
            any-left_items used index item g (
              closes-unsaved used (contains item.item_id pane.save_modals_spawned)
                (answers item.item_id) error (is_skip-used_intent intent all_answer used s a h)
                dirty can save answer anyway))
      ]
