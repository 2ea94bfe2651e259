-- ===== src/Pane/Save.antt =====
-- `Pane::save_item`. What it waits for and reads of the item is a record of answers: the tabs of the
-- pane are taken to stay as they are while a prompt is open or a save runs.
use zaku.Prelude.{
  ℕ, Bool, true, false, not, ◌&&◌, ◌||◌, Option, none, some, [], ◌∷◌, ◌==◌, if◌then◌else◌, Result,
  ok, err, filter,
}
use zaku.Text.{contains}
use zaku.Pane.{
  Item, Pane, opt_eq, is_singleton, emit, prompt, reload, save, user_saved_item, index_for_item_id,
  unpreview_item_if_preview, activate_item,
}

-- crates/actions/src/pane.rs
pub data SaveIntent : Type 0 where
  save_one save_all close skip : SaveIntent

abbrev pub is_save : SaveIntent → Bool
is_save save_one = true
is_save _ = false

abbrev pub is_close : SaveIntent → Bool
is_close close = true
is_close _ = false

abbrev pub is_skip : SaveIntent → Bool
is_skip skip = true
is_skip _ = false

-- What the item, the person and the file system answer about one item: `answer` is the button of
-- the prompt to save, `close_answer` that of the prompt after a failed save (none if it was
-- dismissed). The item is asked twice whether it is dirty.
pub record Answers (E : Type 0) : Type 0 where
  pub dirty_at_start : Bool
  pub is_dirty : Bool
  pub can_save : Bool
  pub answer : Option ℕ
  pub save_result : Result E (Unit {0})
  pub close_answer : Option ℕ
  pub has_focus : Bool

abbrev pub insert_id : Pane → ℕ → Pane
insert_id pane id = record pane { save_modals_spawned = id ∷ pane.save_modals_spawned }

abbrev pub remove_id : Pane → ℕ → Pane
remove_id pane id = record pane {
  save_modals_spawned = filter (λ n. not (n == id)) pane.save_modals_spawned;
}

module _ {E : Type 0} (item : Item) (answers : Answers E) where
  -- Discarding reloads the file, if the item is one.
  abbrev pub reload_if : Bool → Pane → Pane
  reload_if b pane = if b then emit pane (reload item.item_id ∷ []) else pane

  -- The call of `save`, and the event if it did not fail.
  unfoldable pub save_dirty : Pane → Pane × Result E Bool
  unfolding unpreview_item_if_preview
  save_dirty pane =
      let saving = emit (unpreview_item_if_preview pane item.item_id) (save item.item_id ∷ []) in
      elim answers.save_result [
        | ok u ↦ (emit saving (user_saved_item item.item_id ∷ []), ok true)
        | err error ↦ (saving, err error)
      ]

  -- The buttons are Save, Don't Save and Cancel.
  unfoldable pub after_prompt : Pane → Option ℕ → Pane × Result E Bool
  unfolding save_dirty
  after_prompt pane answer =
      if opt_eq answer (some 0)
      then save_dirty pane
      else if opt_eq answer (some 1)
      then (reload_if (is_singleton item.buffer_kind) pane, ok true)
      else (pane, ok false)

  unfoldable pub ask_to_save : Pane → ℕ → Pane × Result E Bool
  unfolding after_prompt activate_item
  ask_to_save pane item_index =
      if contains item.item_id pane.save_modals_spawned
      then (pane, ok false)
      else (let asked = activate_item (insert_id pane item.item_id) item_index true in
          after_prompt (remove_id (emit asked (prompt item.item_id ∷ [])) item.item_id)
            answers.answer)

  unfoldable pub save_at : Pane → ℕ → SaveIntent → Pane × Result E Bool
  unfolding ask_to_save save_dirty
  save_at pane item_index save_intent =
      if (is_save save_intent || answers.is_dirty) && answers.can_save
      then (if is_close save_intent then ask_to_save pane item_index else save_dirty pane)
      else (emit pane (user_saved_item item.item_id ∷ []), ok true)

  unfoldable pub save_item : Pane → SaveIntent → Pane × Result E Bool
  unfolding save_at
  save_item pane save_intent =
      if is_skip save_intent
      then (reload_if (answers.can_save && is_singleton item.buffer_kind) pane, ok true)
      else elim (index_for_item_id pane item.item_id) [
        | none ↦ (pane, ok true)
        | some item_index ↦ save_at pane item_index save_intent
      ]
