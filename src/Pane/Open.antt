-- ===== src/Pane/Open.antt =====
-- `Pane::open_item`: a tab that shows the entry or the path is found, or a new one is built.
use zaku.Prelude.{ℕ, Bool, not, ◌&&◌, Option, none, some, get_elem?, if◌then◌else◌, position}
use zaku.Pane.{
  ProjectPath, Item, Pane, has_only_entry, has_path, opt_eq, set_preview_item_id, preview_item_idx,
  unpreview_item_if_preview, activate_item,
}
use zaku.Pane.Add.{add_item}
use zaku.Pane.Close.{close_current_preview_item}

-- The arguments of `open_item` besides the entry and the path, and what the window answers.
pub record OpenOptions : Type 0 where
  pub focus_item : Bool
  pub allow_preview : Bool
  pub activate : Bool
  pub suggested_position : Option ℕ
  pub has_focus : Bool

abbrev pub shows : Option ℕ → ProjectPath → Item → Bool
shows none project_path = has_path project_path
shows (some project_entry_id) project_path = has_only_entry project_entry_id

-- The closure `set_up_existing_item`, and its first statement.
unfoldable pub unpreview_existing : Pane → ℕ → OpenOptions → Pane
unfolding unpreview_item_if_preview
unpreview_existing pane index options = elim (get_elem? pane.items index) [
  | none ↦ pane
  | some item ↦
      if not options.allow_preview then unpreview_item_if_preview pane item.item_id else pane
]

unfoldable pub set_up_existing_item : Pane → ℕ → OpenOptions → Pane
unfolding unpreview_existing activate_item
set_up_existing_item pane index options =
    let settled = unpreview_existing pane index options in
    if options.activate then activate_item settled index options.focus_item else settled

abbrev pub preview_if : Bool → Pane → ℕ → Pane
preview_if b pane id = if b then set_preview_item_id pane (some id) else pane

-- The closure `set_up_new_item`.
unfoldable pub set_up_new_item : Pane → Item → Option ℕ → Bool → OpenOptions → Pane
unfolding add_item
set_up_new_item pane new_item destination_index preview_was_active options =
    let marked = preview_if (options.allow_preview && preview_was_active) pane new_item.item_id in
    let added = add_item marked new_item options.focus_item options.activate destination_index in
    preview_if (options.allow_preview && not preview_was_active) added new_item.item_id

-- `open_item` where no tab shows the entry. `build_item` reads the pane and makes the new item.
unfoldable pub open_new : Pane → OpenOptions → (Pane → Item) → Pane × Item
open_new pane options build_item =
    let preview_was_active = opt_eq (preview_item_idx pane) (some pane.active_item_index) in
    let (closed, destination_index) =
      if options.allow_preview
      then close_current_preview_item pane options.has_focus
      else (pane, options.suggested_position) in
    let new_item = build_item closed in
    (set_up_new_item closed new_item destination_index preview_was_active options, new_item)

unfoldable pub open_item :
    Pane → Option ℕ → ProjectPath → OpenOptions → (Pane → Item) → Pane × Option Item
unfolding set_up_existing_item open_new
open_item pane project_entry_id project_path options build_item =
    elim (position (shows project_entry_id project_path) pane.items) [
      | some index ↦ (set_up_existing_item pane index options, get_elem? pane.items index)
      | none ↦ let (opened, item) = open_new pane options build_item in (opened, some item)
    ]
