-- ===== src/Pane/Tests.antt =====
-- Runs of a pane, and its theorems at a pane with a permanent tab and a preview tab.
use zaku.Prelude.{ℕ, ◌≡◌, refl, Bool, true, false, none, some, [], ◌∷◌, arith, position}
use zaku.Pane.{ProjectPath, Item, singleton, Pane, active_item, preview_item_idx}
use zaku.Pane.Add.{is_existing, add_item}
use zaku.Pane.Close.{remove_item, close_current_preview_item}
use zaku.Pane.Open.{OpenOptions, open_new, open_item, set_up_new_item}
use zaku.Pane.Active.{IsValid}
use zaku.Pane.Adding.{add_item-IsValid}
use zaku.Pane.Background.{AfterAdding, active_item-add_item_background}
use zaku.Pane.Closing.{active_item-remove_item_active}
use zaku.Pane.Opening.{open_item-shows}
use zaku.Pane.PastEnd.{active_item-open_item_past_end}

-- An item for one entry of the project.
abbrev tab : ℕ → Item
tab n = record {
  item_id = n;
  buffer_kind = singleton;
  project_entry_ids = n ∷ [];
  project_path = none;
  preserve_preview = false;
}

-- Tabs 1 and 2; tab 2 is active and the preview.
abbrev two_tabs : Pane
two_tabs = record {
  items = tab 1 ∷ tab 2 ∷ [];
  active_item_index = 1;
  preview_item_id = some 2;
  suppress_scroll = true;
  save_modals_spawned = [];
  toolbar_item = some 2;
  effects = [];
}

abbrev readme : ProjectPath
readme = record { worktree_id = 1; path = [] }

abbrev as_preview : Bool → OpenOptions
as_preview activate = record {
  focus_item = false;
  allow_preview = true;
  activate = activate;
  suggested_position = none;
  has_focus = false;
}

preview_idx_two_tabs : preview_item_idx two_tabs ≡ some 1
unfolding preview_item_idx
preview_idx_two_tabs = refl

opened :
    (open_item two_tabs (some 3) readme (as_preview true) (λ p. tab 3)).0.items ≡ tab 1 ∷ tab 3 ∷ []
unfolding open_item open_new set_up_new_item close_current_preview_item add_item
opened = refl

closed_fresh :
    let closed = (close_current_preview_item two_tabs false).0 in
    position (is_existing (tab 3)) closed.items ≡ none
unfolding close_current_preview_item
closed_fresh = refl

add_item-IsValid_example : IsValid (add_item two_tabs (tab 3) true true none)
add_item-IsValid_example = add_item-IsValid two_tabs (tab 3) true none true (omega arith)

active_item-add_item_background_example :
    AfterAdding two_tabs (tab 2) (add_item two_tabs (tab 2) true false (some 0))
active_item-add_item_background_example =
    active_item-add_item_background two_tabs (tab 2) true (some 0) (omega arith)

active_item-remove_item_active_example :
    active_item (remove_item two_tabs 2 true true false).0 ≡ some (tab 1)
active_item-remove_item_active_example =
    active_item-remove_item_active two_tabs 2 true true false refl

open_item-shows_example :
    let opened = open_item two_tabs (some 3) readme (as_preview true) (λ p. tab 3) in
    (item shown : Item) × (opened.1 ≡ some item)
    × (active_item opened.0 ≡ some shown)
    × (is_existing item shown ≡ true)
    × IsValid opened.0
open_item-shows_example =
    open_item-shows (as_preview true) refl two_tabs (some 3) readme (λ p. tab 3)

active_item-open_item_past_end_example :
    active_item (open_item two_tabs (some 3) readme (as_preview false) (λ p. tab 3)).0 ≡ none
active_item-open_item_past_end_example =
    active_item-open_item_past_end two_tabs (as_preview false) (λ p. tab 3) refl refl
      preview_idx_two_tabs refl (omega arith) closed_fresh (some 3) readme refl
