-- ===== src/Pane.antt =====
-- crates/workspace/src/pane.rs: the tabs of a pane, which of them is active, and the preview tab.
-- An item handle is the record of what its methods answer; what the pane does to items, to the
-- window and to its listeners is a list of effects. `cx.notify` (a redraw) is left out.
pub mod Add
pub mod Close
pub mod Open
pub mod Active
pub mod Moving
pub mod Adding
pub mod Background
pub mod Closing
pub mod Preview
pub mod Opening
pub mod PastEnd
pub mod Save
pub mod CloseItems
pub mod Saving
pub mod Kept
pub mod Left
pub mod Unsaved
pub mod Unique
pub mod Duplicates
mod Tests
mod CloseTests
use mathlib.Core.Option
use zaku.Prelude.{
  ℕ, zero, suc, ◌+◌, ◌-◌, min, Bool, true, false, not, ◌&&◌, ◌||◌, Option, none, some, List, [],
  ◌∷◌, ◌++◌, length, get_elem?, ltb, leb, ◌==◌, if◌then◌else◌, insert_idx, erase_idx, position,
  find,
}
use zaku.Text.{Str, str_eq}

-- crates/project/src/project.rs
pub record ProjectPath : Type 0 where
  pub worktree_id : ℕ
  pub path : Str

abbrev pub project_path_eq : ProjectPath → ProjectPath → Bool
project_path_eq p q = p.worktree_id == q.worktree_id && str_eq p.path q.path

-- crates/workspace/src/item.rs
pub data ItemBufferKind : Type 0 where
  singleton no_buffer : ItemBufferKind

abbrev pub is_singleton : ItemBufferKind → Bool
is_singleton singleton = true
is_singleton no_buffer = false

pub record Item : Type 0 where
  pub item_id : ℕ
  pub buffer_kind : ItemBufferKind
  pub project_entry_ids : List ℕ
  pub project_path : Option ProjectPath
  pub preserve_preview : Bool

-- What a pane does to the world: calls of items, the focus, the tab bar's scroll, prompts and events.
pub data Effect : Type 0 where
  deactivated on_removed focus_item scroll_to : ℕ → Effect
  focus_pane : Effect
  add_item_event removed_item_event : ℕ → Effect
  activate_item_event : Bool → Effect
  prompt reload save user_saved_item : ℕ → Effect

pub record Pane : Type 0 where
  pub items : List Item
  pub active_item_index : ℕ
  pub preview_item_id : Option ℕ
  pub suppress_scroll : Bool
  -- the items whose prompt is open
  pub save_modals_spawned : List ℕ
  -- the item that the toolbar was last given
  pub toolbar_item : Option ℕ
  pub effects : List Effect

-- `Option<EntityId>` equality.
abbrev pub opt_eq : Option ℕ → Option ℕ → Bool
opt_eq none none = true
opt_eq none (some b) = false
opt_eq (some a) none = false
opt_eq (some a) (some b) = a == b

abbrev pub unwrap_or : Option ℕ → ℕ → ℕ
unwrap_or none d = d
unwrap_or (some n) d = n

abbrev pub is_none {ℓ} : {A : Type ℓ} → Option A → Bool
is_none none = true
is_none (some a) = false

abbrev pub pred_if : Bool → ℕ → ℕ
pred_if b n = if b then n - 1 else n

abbrev pub suc_if : Bool → ℕ → ℕ
suc_if b n = if b then n + 1 else n

abbrev pub emit : Pane → List Effect → Pane
emit pane es = record pane { effects = pane.effects ++ es }

abbrev pub active_item : Pane → Option Item
active_item pane = get_elem? pane.items pane.active_item_index

abbrev pub active_item_id : Pane → Option ℕ
active_item_id pane = Option.map (λ (item : Item). item.item_id) (active_item pane)

abbrev pub set_preview_item_id : Pane → Option ℕ → Pane
set_preview_item_id pane id = record pane { preview_item_id = id }

abbrev pub has_id : ℕ → Item → Bool
has_id id item = item.item_id == id

abbrev pub index_for_item_id : Pane → ℕ → Option ℕ
index_for_item_id pane id = position (has_id id) pane.items

unfoldable pub preview_item : Pane → Option Item
preview_item pane = elim pane.preview_item_id [
  | none ↦ none
  | some id ↦ find (has_id id) pane.items
]

unfoldable pub preview_item_idx : Pane → Option ℕ
preview_item_idx pane = elim pane.preview_item_id [
  | none ↦ none
  | some id ↦ position (has_id id) pane.items
]

abbrev pub is_active_preview_item : Pane → ℕ → Bool
is_active_preview_item pane id = opt_eq pane.preview_item_id (some id)

unfoldable pub unpreview_item_if_preview : Pane → ℕ → Pane
unpreview_item_if_preview pane id =
    if is_active_preview_item pane id then set_preview_item_id pane none else pane

unfoldable pub handle_item_edit : Pane → ℕ → Pane
unfolding preview_item unpreview_item_if_preview
handle_item_edit pane id = elim (preview_item pane) [
  | none ↦ pane
  | some item ↦
      if item.item_id == id && not item.preserve_preview
      then unpreview_item_if_preview pane id
      else pane
]

-- `entry_ids.as_slice() == [entry_id]`, and `first()`.
abbrev pub is_only : ℕ → List ℕ → Bool
is_only id (e ∷ []) = e == id
is_only id _ = false

abbrev pub first : List ℕ → Option ℕ
first [] = none
first (e ∷ es) = some e

abbrev pub has_only_entry : ℕ → Item → Bool
has_only_entry entry_id item =
    is_singleton item.buffer_kind && is_only entry_id item.project_entry_ids

abbrev pub has_path : ProjectPath → Item → Bool
has_path path item =
    is_singleton item.buffer_kind
    && elim item.project_path [ none ↦ false | some p ↦ project_path_eq p path ]

unfoldable pub item_for_entry : Pane → ℕ → Option Item
item_for_entry pane entry_id = find (has_only_entry entry_id) pane.items

unfoldable pub item_for_path : Pane → ProjectPath → Option Item
item_for_path pane path = find (has_path path) pane.items

unfoldable pub update_toolbar : Pane → Pane
update_toolbar pane = record pane { toolbar_item = active_item_id pane }

unfoldable pub update_active_tab : Pane → ℕ → Pane
update_active_tab pane item_index =
    emit (record pane { suppress_scroll = false }) (scroll_to item_index ∷ [])

unfoldable pub focus_active_item : Pane → Pane
focus_active_item pane = elim (active_item pane) [
  | none ↦ pane
  | some item ↦ emit pane (focus_item item.item_id ∷ [])
]

-- The previous item hears of it if the index changes.
unfoldable pub deactivate_previous : Pane → ℕ → Pane
deactivate_previous pane previous =
    if previous == pane.active_item_index then pane else elim (get_elem? pane.items previous) [
      | none ↦ pane
      | some item ↦ emit pane (deactivated item.item_id ∷ [])
    ]

unfoldable pub activate_item : Pane → ℕ → Bool → Pane
unfolding update_toolbar update_active_tab focus_active_item deactivate_previous
activate_item pane item_index focus =
    if leb (length pane.items) item_index
    then pane
    else (let moved =
          deactivate_previous (record pane { active_item_index = item_index })
            pane.active_item_index in
        let focused = if focus then focus_active_item moved else moved in
        update_active_tab (update_toolbar (emit focused (activate_item_event focus ∷ [])))
          item_index)
