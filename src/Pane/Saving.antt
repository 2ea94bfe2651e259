-- ===== src/Pane/Saving.antt =====
-- `save_item`: the tabs stay as they are, and whether the item closes then.
use zaku.Prelude.{
  ℕ, ◌≡◌, refl, ap, ◌∙◌, Bool, Bool-cases, Option-cases, true, false, not, ◌&&◌, ◌||◌, Option, some,
  List, [], ◌∷◌, ◌==◌, ==_self, if◌then◌else◌, if-both, Result, ok, err, filter, inl, inr, arith,
}
use zaku.Text.{contains}
use zaku.Pane.{
  Item, Pane, is_singleton, opt_eq, emit, prompt, index_for_item_id, unpreview_item_if_preview,
  activate_item,
}
use zaku.Pane.Active.{IsValid, items-activate_item, spawned-activate_item, activate_item-IsValid}
use zaku.Pane.Save.{
  SaveIntent, is_save, is_close, is_skip, Answers, insert_id, remove_id, reload_if, save_dirty,
  after_prompt, ask_to_save, save_at, save_item,
}
use zaku.Pane.CloseItems.{may_close}

-- The item was saved, or the person closes it although the save failed.
abbrev pub is_saved_or_given_up : {E : Type 0} → Answers E → Bool
is_saved_or_given_up answers = elim answers.save_result [
  | ok u ↦ true
  | err error ↦ opt_eq answers.close_answer (some 0)
]

-- Whether an item of the pane closes; `is_open` says whether its prompt is open already.
abbrev pub closes : {E : Type 0} → SaveIntent → Bool → Answers E → Bool
closes save_intent is_open answers =
    is_skip save_intent
    || not ((is_save save_intent || answers.is_dirty) && answers.can_save)
    || (if is_close save_intent
        then not is_open
          && (opt_eq answers.answer (some 1)
              || opt_eq answers.answer (some 0) && is_saved_or_given_up answers)
        else is_saved_or_given_up answers)

filter-lacking :
    (id : ℕ) (ids : List ℕ) → contains id ids ≡ false → filter (λ n. not (n == id)) ids ≡ ids
filter-lacking id [] h = refl
filter-lacking id (n ∷ ids) h = ground (arith, filter-lacking id ids)

remove_id-insert_id :
    (id : ℕ) (ids : List ℕ) → contains id ids ≡ false → filter (λ n. not (n == id)) (id ∷ ids) ≡ ids
remove_id-insert_id id ids h = rw (filter, ==_self id) (filter-lacking id ids h)

module _ {E : Type 0} (item : Item) (answers : Answers E) where
  -- Two panes with the same tabs and open prompts, both with a valid active index if one has it.
  pub record Keeps (pane after : Pane) : Type 0 where
    pub items : after.items ≡ pane.items
    pub spawned : after.save_modals_spawned ≡ pane.save_modals_spawned
    pub valid : IsValid pane → IsValid after

  Keeps-save_dirty : (pane : Pane) → Keeps pane (save_dirty item answers pane).0
  unfolding save_dirty unpreview_item_if_preview
  Keeps-save_dirty pane = record {
    items = ground arith;
    spawned = ground arith;
    valid = λ v. ground arith;
  }

  may_close-save_dirty :
      (pane : Pane)
      → may_close answers.close_answer (save_dirty item answers pane).1
        ≡ is_saved_or_given_up answers
  unfolding save_dirty
  may_close-save_dirty pane = ground arith

  Keeps-reload_if : (b : Bool) (pane : Pane) → Keeps pane (reload_if item answers b pane)
  Keeps-reload_if true pane = record { items = refl; spawned = refl; valid = λ v. v }
  Keeps-reload_if false pane = record { items = refl; spawned = refl; valid = λ v. v }

  Keeps-after_prompt :
      (pane : Pane) (answer : Option ℕ) → Keeps pane (after_prompt item answers pane answer).0
  unfolding after_prompt
  Keeps-after_prompt pane answer = elim (Bool-cases (opt_eq answer (some 0))) [
    | inl h ↦ rw (after_prompt, h) (Keeps-save_dirty pane)
    | inr h ↦ elim (Bool-cases (opt_eq answer (some 1))) [
      | inl k ↦ rw (after_prompt, h, k) (Keeps-reload_if (is_singleton item.buffer_kind) pane)
      | inr k ↦ rw (after_prompt, h, k) (record { items = refl; spawned = refl; valid = λ v. v })
    ]
  ]

  may_close-after_prompt :
      (pane : Pane) (answer : Option ℕ)
      → may_close answers.close_answer (after_prompt item answers pane answer).1
        ≡ (opt_eq answer (some 1) || opt_eq answer (some 0) && is_saved_or_given_up answers)
  unfolding after_prompt
  may_close-after_prompt pane answer = ground (arith, may_close-save_dirty pane)

  -- The pane once the prompt is answered.
  abbrev prompted : Pane → ℕ → Pane
  prompted pane item_index =
      remove_id
        (emit (activate_item (insert_id pane item.item_id) item_index true)
          (prompt item.item_id ∷ []))
        item.item_id

  Keeps-prompted :
      (pane : Pane) (item_index : ℕ)
      → contains item.item_id pane.save_modals_spawned ≡ false
      → Keeps pane (prompted pane item_index)
  Keeps-prompted pane item_index h = record {
    items = items-activate_item (insert_id pane item.item_id) item_index true;
    spawned =
        ap (filter (λ n. not (n == item.item_id)))
          (spawned-activate_item (insert_id pane item.item_id) item_index true)
        ∙ remove_id-insert_id item.item_id pane.save_modals_spawned h;
    valid = λ v. activate_item-IsValid (insert_id pane item.item_id) item_index true v;
  }

  Keeps-trans : (p q r : Pane) → Keeps p q → Keeps q r → Keeps p r
  Keeps-trans p q r h k = record {
    items = k.items ∙ h.items;
    spawned = k.spawned ∙ h.spawned;
    valid = λ v. k.valid (h.valid v);
  }

  Keeps-ask_to_save :
      (pane : Pane) (item_index : ℕ) → Keeps pane (ask_to_save item answers pane item_index).0
  unfolding ask_to_save
  Keeps-ask_to_save pane item_index =
      elim (Bool-cases (contains item.item_id pane.save_modals_spawned)) [
        | inl h ↦ rw (ask_to_save, h) (record { items = refl; spawned = refl; valid = λ v. v })
        | inr h ↦
            rw (ask_to_save, h)
              (Keeps-trans pane (prompted pane item_index) _ (Keeps-prompted pane item_index h)
                (Keeps-after_prompt (prompted pane item_index) answers.answer))
      ]

  may_close-ask_to_save :
      (pane : Pane) (item_index : ℕ)
      → may_close answers.close_answer (ask_to_save item answers pane item_index).1 ≡ (
          not (contains item.item_id pane.save_modals_spawned)
          && (opt_eq answers.answer (some 1)
              || opt_eq answers.answer (some 0) && is_saved_or_given_up answers))
  unfolding ask_to_save
  may_close-ask_to_save pane item_index =
      elim (Bool-cases (contains item.item_id pane.save_modals_spawned)) [
        | inl h ↦ rw (ask_to_save, h)
        | inr h ↦
            rw (ask_to_save, h) (may_close-after_prompt (prompted pane item_index) answers.answer)
      ]

  Keeps-save_at :
      (pane : Pane) (item_index : ℕ) (intent : SaveIntent)
      → Keeps pane (save_at item answers pane item_index intent).0
  unfolding save_at
  Keeps-save_at pane item_index intent =
      if-both (λ (r : Pane × Result E Bool). Keeps pane r.0)
        ((is_save intent || answers.is_dirty) && answers.can_save)
        (if-both (λ (r : Pane × Result E Bool). Keeps pane r.0) (is_close intent)
          (Keeps-ask_to_save pane item_index) (Keeps-save_dirty pane))
        (record { items = refl; spawned = refl; valid = λ v. v })

  pub Keeps-save_item :
      (pane : Pane) (intent : SaveIntent) → Keeps pane (save_item item answers pane intent).0
  unfolding save_item
  Keeps-save_item pane intent =
      if-both (λ (r : Pane × Result E Bool). Keeps pane r.0) (is_skip intent)
        (Keeps-reload_if (answers.can_save && is_singleton item.buffer_kind) pane)
        (elim (Option-cases (index_for_item_id pane item.item_id)) [
          | inl h ↦ rw h (record { items = refl; spawned = refl; valid = λ v. v })
          | inr (item_index, h) ↦ rw h (Keeps-save_at pane item_index intent)
        ])

  -- For an item that the pane has.
  pub may_close-save_item :
      (pane : Pane) (intent : SaveIntent) (item_index : ℕ)
      → index_for_item_id pane item.item_id ≡ some item_index
      → may_close answers.close_answer (save_item item answers pane intent).1
        ≡ closes intent (contains item.item_id pane.save_modals_spawned) answers
  unfolding save_item save_at
  may_close-save_item pane intent item_index h =
      rw (save_item, h)
        (ground (arith, may_close-ask_to_save pane item_index, may_close-save_dirty pane))
