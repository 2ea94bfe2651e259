-- ===== src/Dock.antt =====
-- crates/workspace/src/dock.rs: the panels of a dock, which of them is active, and whether the dock
-- is open. A panel handle is the record of what its methods answer; calls of panels are a list of
-- effects. The sizes of panels (floating-point pixels) and the focus are left out.
pub mod Sorted
pub mod Active
pub mod Restore
pub mod Toggle
mod Tests
use mathlib.Core.Option
use zaku.Prelude.{
  ℕ, suc, Bool, true, false, not, ◌&&◌, Option, none, some, List, [], ◌∷◌, ◌++◌, get_elem?, ltb,
  leb, ◌==◌, if◌then◌else◌, insert_idx, position, Result, ok, err,
}
use zaku.Text.{Str, str_eq}

pub record Panel : Type 0 where
  pub panel_id : ℕ
  pub persistent_name : Str
  pub activation_priority : ℕ
  pub starts_open : Bool
  pub enabled : Bool

-- crates/workspace/src/persistence/model.rs
pub record DockData : Type 0 where
  pub visible : Bool
  pub active_panel_name : Option Str
  pub auto_hidden : Bool

pub data PanelCall : Type 0 where
  set_active set_auto_hidden : ℕ → Bool → PanelCall

pub record Dock : Type 0 where
  pub panel_entries : List Panel
  pub is_open : Bool
  pub active_panel_index : Option ℕ
  pub serialized_dock : Option DockData
  pub calls : List PanelCall

-- `Dock::new`
abbrev pub empty_dock : Dock
empty_dock = record {
  panel_entries = [];
  is_open = false;
  active_panel_index = none;
  serialized_dock = none;
  calls = [];
}

abbrev pub get_panel : List Panel → Option ℕ → Option Panel
get_panel panels none = none
get_panel panels (some index) = get_elem? panels index

-- `active_panel` and `active_panel_entry`, of which this model has the panel alone.
abbrev pub active_panel : Dock → Option Panel
active_panel dock = get_panel dock.panel_entries dock.active_panel_index

unfoldable pub visible_entry : Dock → Option Panel
visible_entry dock = if dock.is_open then active_panel dock else none

-- The call of `set_active` that goes to a panel, if there is one.
abbrev pub tell_active : Option Panel → Bool → List PanelCall
tell_active none active = []
tell_active (some panel) active = set_active panel.panel_id active ∷ []

abbrev pub same_bool : Bool → Bool → Bool
same_bool true b = b
same_bool false b = not b

unfoldable pub set_open : Dock → Bool → Dock
set_open dock is_open = if same_bool is_open dock.is_open then dock else record dock {
  is_open = is_open;
  calls = dock.calls ++ tell_active (active_panel dock) is_open;
}

abbrev pub is_index : Option ℕ → ℕ → Bool
is_index none index = false
is_index (some active) index = active == index

unfoldable pub activate_panel : Dock → ℕ → Dock
activate_panel dock panel_index =
    if is_index dock.active_panel_index panel_index then dock else record dock {
      active_panel_index = some panel_index;
      calls =
          dock.calls
          ++ tell_active (active_panel dock) false
          ++ tell_active (get_elem? dock.panel_entries panel_index) true;
    }

abbrev pub has_name : Str → Panel → Bool
has_name persistent_name panel = str_eq panel.persistent_name persistent_name

unfoldable pub panel_index_for_persistent_name : Dock → Str → Option ℕ
panel_index_for_persistent_name dock persistent_name =
    position (has_name persistent_name) dock.panel_entries

-- The panel that a stored state names.
abbrev pub stored_index : Dock → DockData → Option ℕ
stored_index dock serialized = elim serialized.active_panel_name [
  | none ↦ none
  | some persistent_name ↦ panel_index_for_persistent_name dock persistent_name
]

abbrev pub hide_stored : Option Panel → Bool → List PanelCall
hide_stored none auto_hidden = []
hide_stored (some panel) auto_hidden = set_auto_hidden panel.panel_id auto_hidden ∷ []

unfoldable pub restore_panel : Dock → DockData → ℕ → Dock
restore_panel dock serialized panel_index =
    let hidden = record dock {
      calls =
          dock.calls
          ++ hide_stored (get_elem? dock.panel_entries panel_index) serialized.auto_hidden;
    } in
    if serialized.visible then activate_panel hidden panel_index else hidden

unfoldable pub restore_from : Dock → DockData → Dock
restore_from dock serialized =
    set_open
      (elim (stored_index dock serialized) [
        | none ↦ dock
        | some panel_index ↦ restore_panel dock serialized panel_index
      ])
      serialized.visible

unfoldable pub restore_state : Dock → Dock × Bool
restore_state dock = elim dock.serialized_dock [
  | none ↦ (dock, false)
  | some serialized ↦ (restore_from dock serialized, true)
]

-- Where a binary search by the priority ends in entries that are sorted by it: at the first entry
-- whose priority is not smaller. With a priority that is taken already, the library leaves open
-- which of its entries is found, and a build with debug assertions panics.
unfoldable pub search_priority : ℕ → List Panel → ℕ
search_priority priority [] = 0
search_priority priority (entry ∷ entries) =
    let rest = search_priority priority entries in
    if ltb entry.activation_priority priority then suc rest else 0

abbrev pub shift_index : ℕ → Option ℕ → Option ℕ
shift_index index none = none
shift_index index (some active) = some (if leb index active then suc active else active)

unfoldable pub insert_panel : Dock → Panel → ℕ → Dock
insert_panel dock panel index = record dock {
  panel_entries = insert_idx dock.panel_entries index panel;
  active_panel_index = shift_index index dock.active_panel_index;
}

unfoldable pub add_panel : Dock → Panel → Dock × ℕ
add_panel dock panel =
    let index = search_priority panel.activation_priority dock.panel_entries in
    let (restored_dock, restored) = restore_state (insert_panel dock panel index) in
    (
      (if not restored && panel.starts_open
          then set_open (activate_panel restored_dock index) true
          else restored_dock),
      index,
    )

-- The error stands for the message that names the dock's position.
pub data DockError : Type 0 where
  no_enabled_panel : DockError

unfoldable pub first_enabled_panel_idx : Dock → Result DockError ℕ
first_enabled_panel_idx dock =
    elim (position (λ (panel : Panel). panel.enabled) dock.panel_entries) [
      | none ↦ err no_enabled_panel
      | some index ↦ ok index
    ]

-- crates/workspace/src/workspace.rs, `toggle_dock`: what it does to the dock. A dock that is closed
-- opens on a panel that is enabled; where there is none, it stays closed.
abbrev pub needs_enabled_panel : Option Panel → Bool
needs_enabled_panel none = true
needs_enabled_panel (some panel) = not panel.enabled

unfoldable pub open_enabled : Dock → Dock
open_enabled dock =
    if needs_enabled_panel (active_panel dock)
    then (elim (first_enabled_panel_idx dock) [
      | err e ↦ dock
      | ok panel_index ↦ set_open (activate_panel dock panel_index) true
    ])
    else set_open dock true

unfoldable pub toggle_dock : Dock → Dock
toggle_dock dock = if dock.is_open then set_open dock false else open_enabled dock
