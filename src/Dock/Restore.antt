-- ===== src/Dock/Restore.antt =====
-- `restore_state` and `add_panel`: a stored state decides, else the panel that starts open.
use mathlib.Core.Path.{subst}
use zaku.Prelude.{
  ◌⊎◌, ℕ, ◌<◌, ◌≡◌, refl, sym, ap, ◌∙◌, Bool, true, false, not, ◌&&◌, none, some, List, arith,
  length, get_elem?, insert_idx, Bool-cases, Option-cases, inl, inr, if◌then◌else◌, position-lt,
  get_elem?-position, length-insert_idx, get_elem?-insert_idx_self,
}
use zaku.Text.{Str}
use zaku.Dock.{
  Panel, DockData, Dock, active_panel, visible_entry, set_open, activate_panel, has_name,
  stored_index, panel_index_for_persistent_name, restore_panel, restore_from, restore_state,
  search_priority, insert_panel, add_panel,
}
use zaku.Dock.Sorted.{search_priority-le-length}
use zaku.Dock.Active.{
  IsValid, set_open_lem, activate_panel_lem, set_open-IsValid, activate_panel-IsValid,
  insert_panel-IsValid, active_panel-activate_panel, active_panel-set_open,
}

restore_panel-IsValid :
    (dock : Dock) (serialized : DockData) (index : ℕ)
    → index < length dock.panel_entries
    → IsValid dock
    → IsValid (restore_panel dock serialized index)
unfolding restore_panel
restore_panel-IsValid dock serialized index r h = elim (Bool-cases serialized.visible) [
  | inl q ↦
      rw (restore_panel, q)
        (activate_panel-IsValid _ index r
          (record { ascending = h.ascending; in_range = h.in_range }))
  | inr q ↦ rw (restore_panel, q) (record { ascending = h.ascending; in_range = h.in_range })
]

stored_index-lt :
    (dock : Dock) (serialized : DockData) (index : ℕ)
    → stored_index dock serialized ≡ some index
    → index < length dock.panel_entries
unfolding panel_index_for_persistent_name
stored_index-lt dock serialized index h = elim (Option-cases serialized.active_panel_name) [
  | inl q ↦ cc (rw q at h)
  | inr (name, q) ↦ position-lt (has_name name) dock.panel_entries index (rw q at h)
]

restore_from-IsValid :
    (dock : Dock) (serialized : DockData) → IsValid dock → IsValid (restore_from dock serialized)
unfolding restore_from
restore_from-IsValid dock serialized h = elim (Option-cases (stored_index dock serialized)) [
  | inl q ↦ rw (restore_from, q) (set_open-IsValid dock serialized.visible h)
  | inr (index, q) ↦
      rw (restore_from, q)
        (set_open-IsValid (restore_panel dock serialized index) serialized.visible
          (restore_panel-IsValid dock serialized index (stored_index-lt dock serialized index q) h))
]

pub restore_state-IsValid : (dock : Dock) → IsValid dock → IsValid (restore_state dock).0
unfolding restore_state
restore_state-IsValid dock h = elim (Option-cases dock.serialized_dock) [
  | inl q ↦ rw (restore_state, q) h
  | inr (serialized, q) ↦ rw (restore_state, q) (restore_from-IsValid dock serialized h)
]

search_priority-lt :
    (dock : Dock) (panel : Panel)
    → search_priority panel.activation_priority dock.panel_entries
      < length (
          insert_idx dock.panel_entries
            (search_priority panel.activation_priority dock.panel_entries)
            panel)
search_priority-lt dock panel = omega (
  arith,
  search_priority-le-length panel.activation_priority dock.panel_entries,
  length-insert_idx dock.panel_entries
      (search_priority panel.activation_priority dock.panel_entries) panel,
)

-- Entries and the stored state are no business of `restore_state`.
restore_from-entries :
    (dock : Dock) (serialized : DockData)
    → (restore_from dock serialized).panel_entries ≡ dock.panel_entries
unfolding restore_from restore_panel
restore_from-entries dock serialized = elim (Option-cases (stored_index dock serialized)) [
  | inl q ↦ rw (restore_from, q) (set_open_lem dock serialized.visible).1
  | inr (index, q) ↦
      rw (restore_from, q)
        ((set_open_lem (restore_panel dock serialized index) serialized.visible).1
          ∙ panel_entries_same index (Bool-cases serialized.visible))
]
  where
    panel_entries_same :
        (index : ℕ)
        → (serialized.visible ≡ true) ⊎ (serialized.visible ≡ false)
        → (restore_panel dock serialized index).panel_entries ≡ dock.panel_entries
    panel_entries_same index (inl q) = rw (restore_panel, q) (activate_panel_lem _ index).1
    panel_entries_same index (inr q) = rw (restore_panel, q)

restore_state-entries : (dock : Dock) → (restore_state dock).0.panel_entries ≡ dock.panel_entries
unfolding restore_state
restore_state-entries dock = elim (Option-cases dock.serialized_dock) [
  | inl q ↦ rw (restore_state, q)
  | inr (serialized, q) ↦ rw (restore_state, q) (restore_from-entries dock serialized)
]

-- Adding a panel keeps the panels in the order of their priorities and the active index that of a
-- panel.
pub add_panel-IsValid :
    (dock : Dock) (panel : Panel) → IsValid dock → IsValid (add_panel dock panel).0
unfolding add_panel insert_panel
add_panel-IsValid dock panel h =
    let index = search_priority panel.activation_priority dock.panel_entries in
    let inserted = insert_panel dock panel index in
    let v = restore_state-IsValid inserted (insert_panel-IsValid dock panel h).0 in
    let lt : index < length (restore_state inserted).0.panel_entries =
      subst (λ (ps : List Panel). index < length ps) (sym (restore_state-entries inserted))
        (search_priority-lt dock panel) in
    elim (Bool-cases (not (restore_state inserted).1 && panel.starts_open)) [
      | inl q ↦ rw (add_panel, q) (set_open-IsValid _ true (activate_panel-IsValid _ index lt v))
      | inr q ↦ rw (add_panel, q) v
    ]

restore_state-none :
    (dock : Dock) → dock.serialized_dock ≡ none → restore_state dock ≡ (dock, false)
unfolding restore_state
restore_state-none dock n = simp (restore_state, n)

add_panel-none :
    (dock : Dock) (panel : Panel)
    → dock.serialized_dock ≡ none
    → (add_panel dock panel).0 ≡ (
        let index = search_priority panel.activation_priority dock.panel_entries in
        let inserted = insert_panel dock panel index in
        if panel.starts_open then set_open (activate_panel inserted index) true else inserted)
unfolding add_panel insert_panel
add_panel-none dock panel n =
    let index = search_priority panel.activation_priority dock.panel_entries in
    ap
      (λ (r : Dock × Bool).
        if not r.1 && panel.starts_open then set_open (activate_panel r.0 index) true else r.0)
      (restore_state-none (insert_panel dock panel index) n)

-- With no stored state, a panel that starts open is shown once it is added, and any other panel
-- leaves a valid dock as open as it was, with the same active panel.
pub active_panel-add_panel :
    (dock : Dock) (panel : Panel)
    → IsValid dock
    → dock.serialized_dock ≡ none
    → (active_panel (add_panel dock panel).0
        ≡ (if panel.starts_open then some panel else active_panel dock))
      × ((add_panel dock panel).0.is_open ≡ (if panel.starts_open then true else dock.is_open))
unfolding insert_panel
active_panel-add_panel dock panel h n = (
  ap active_panel (add_panel-none dock panel n) ∙ (shown panel.starts_open).0,
  ap (λ (d : Dock). d.is_open) (add_panel-none dock panel n) ∙ (shown panel.starts_open).1,
)
  where
    index : ℕ
    index = search_priority panel.activation_priority dock.panel_entries

    shown :
        (b : Bool)
        → (active_panel (
              if b
              then set_open (activate_panel (insert_panel dock panel index) index) true
              else insert_panel dock panel index)
            ≡ (if b then some panel else active_panel dock))
          × ((if b
                then set_open (activate_panel (insert_panel dock panel index) index) true
                else insert_panel dock panel index).is_open
              ≡ (if b then true else dock.is_open))
    shown true = (
      active_panel-set_open (activate_panel (insert_panel dock panel index) index) true
          ∙ active_panel-activate_panel (insert_panel dock panel index) index
          ∙ get_elem?-insert_idx_self dock.panel_entries index panel
              (search_priority-le-length panel.activation_priority dock.panel_entries),
      (set_open_lem (activate_panel (insert_panel dock panel index) index) true).0,
    )
    shown false = ((insert_panel-IsValid dock panel h).1, refl)

active_panel-restore_panel :
    (dock : Dock) (serialized : DockData) (index : ℕ)
    → serialized.visible ≡ true
    → active_panel (restore_panel dock serialized index) ≡ get_elem? dock.panel_entries index
unfolding restore_panel
active_panel-restore_panel dock serialized index v =
    rw (restore_panel, v) (active_panel-activate_panel _ index)

restore_from-some :
    (dock : Dock) (serialized : DockData) {index : ℕ}
    → stored_index dock serialized ≡ some index
    → restore_from dock serialized
      ≡ set_open (restore_panel dock serialized index) serialized.visible
unfolding restore_from
restore_from-some dock serialized q = rw (restore_from, q)

restore_state-some :
    (dock : Dock) {serialized : DockData}
    → dock.serialized_dock ≡ some serialized
    → (restore_state dock).0 ≡ restore_from dock serialized
unfolding restore_state
restore_state-some dock s = simp (restore_state, s)

-- The stored state decides: if it is visible and names a panel that the dock has, the dock is open
-- and shows a panel of that name.
pub restore_state-shows :
    (dock : Dock) (serialized : DockData) (name : Str) (index : ℕ)
    → dock.serialized_dock ≡ some serialized
    → serialized.visible ≡ true
    → serialized.active_panel_name ≡ some name
    → panel_index_for_persistent_name dock name ≡ some index
    → (panel : Panel) × (visible_entry (restore_state dock).0 ≡ some panel)
      × (has_name name panel ≡ true)
unfolding panel_index_for_persistent_name visible_entry
restore_state-shows dock serialized name index s v a i =
    let (panel, e, m) = get_elem?-position (has_name name) dock.panel_entries index i in
    let stored : stored_index dock serialized ≡ some index = rw a i in
    let restored = restore_panel dock serialized index in
    let whole : (restore_state dock).0 ≡ set_open restored serialized.visible =
      restore_state-some dock s ∙ restore_from-some dock serialized stored in
    let opened : (restore_state dock).0.is_open ≡ true =
      ap (λ (d : Dock). d.is_open) whole ∙ (set_open_lem restored serialized.visible).0 ∙ v in
    let shown : active_panel (restore_state dock).0 ≡ some panel =
      ap active_panel whole
      ∙ active_panel-set_open restored serialized.visible
      ∙ active_panel-restore_panel dock serialized index v
      ∙ e in
    (panel, rw (visible_entry, opened) shown, m)
