-- ===== src/Dock/Active.antt =====
-- Which panel is active after each operation, and that the active index stays in range.
use mathlib.Core.Path.{subst}
use zaku.Prelude.{
  ℕ, ◌<◌, ◌≡◌, refl, sym, ap, ◌∙◌, Bool, Option, none, some, List, arith, length, get_elem?,
  insert_idx, length-insert_idx,
}
use zaku.Dock.{
  Panel, Dock, get_panel, active_panel, set_open, activate_panel, search_priority, shift_index,
  insert_panel,
}
use zaku.Dock.Sorted.{Ascending, search_priority-le-length, Ascending-insert_idx, get_elem?-shift}

abbrev pub InRange : List Panel → Option ℕ → Type 0
InRange panels none = Unit
InRange panels (some index) = index < length panels

-- The panels are in the order of their priorities, and the active index is that of a panel.
pub record IsValid (dock : Dock) : Type 0 where
  pub ascending : Ascending dock.panel_entries
  pub in_range : InRange dock.panel_entries dock.active_panel_index

pub set_open_lem :
    (dock : Dock) (b : Bool)
    → ((set_open dock b).is_open ≡ b)
      × ((set_open dock b).panel_entries ≡ dock.panel_entries)
      × ((set_open dock b).active_panel_index ≡ dock.active_panel_index)
      × ((set_open dock b).serialized_dock ≡ dock.serialized_dock)
unfolding set_open
set_open_lem dock b = ground arith

pub activate_panel_lem :
    (dock : Dock) (index : ℕ)
    → ((activate_panel dock index).active_panel_index ≡ some index)
      × ((activate_panel dock index).panel_entries ≡ dock.panel_entries)
      × ((activate_panel dock index).is_open ≡ dock.is_open)
      × ((activate_panel dock index).serialized_dock ≡ dock.serialized_dock)
unfolding activate_panel
activate_panel_lem dock index = ground arith

IsValid-same :
    (d e : Dock)
    → d.panel_entries ≡ e.panel_entries
    → d.active_panel_index ≡ e.active_panel_index
    → IsValid e
    → IsValid d
IsValid-same d e p q h = record {
  ascending = subst Ascending (sym p) h.ascending;
  in_range =
      subst (InRange d.panel_entries) (sym q)
        (subst (λ (ps : List Panel). InRange ps e.active_panel_index) (sym p) h.in_range);
}

pub set_open-IsValid : (dock : Dock) (b : Bool) → IsValid dock → IsValid (set_open dock b)
set_open-IsValid dock b h =
    let (o, p, a, s) = set_open_lem dock b in IsValid-same (set_open dock b) dock p a h

pub activate_panel-IsValid :
    (dock : Dock) (index : ℕ)
    → index < length dock.panel_entries
    → IsValid dock
    → IsValid (activate_panel dock index)
activate_panel-IsValid dock index r h =
    let (a, p, o, s) = activate_panel_lem dock index in
    IsValid-same (activate_panel dock index) (record dock { active_panel_index = some index }) p a
      (record { ascending = h.ascending; in_range = r })

-- The panel that was active is active still when another one is put in.
pub insert_panel-IsValid :
    (dock : Dock) (panel : Panel)
    → IsValid dock
    → IsValid
        (insert_panel dock panel (search_priority panel.activation_priority dock.panel_entries))
      × (active_panel
            (insert_panel dock panel (search_priority panel.activation_priority dock.panel_entries))
          ≡ active_panel dock)
unfolding insert_panel
insert_panel-IsValid dock panel h = (
  record {
    ascending = Ascending-insert_idx dock.panel_entries panel h.ascending;
    in_range = shifted dock.active_panel_index h.in_range;
  },
  same dock.active_panel_index,
)
  where
    index : ℕ
    index = search_priority panel.activation_priority dock.panel_entries

    shifted :
        (active : Option ℕ)
        → InRange dock.panel_entries active
        → InRange (insert_idx dock.panel_entries index panel) (shift_index index active)
    shifted none r = tt
    shifted (some active) r = ground (arith, length-insert_idx dock.panel_entries index panel)

    same :
        (active : Option ℕ)
        → get_panel (insert_idx dock.panel_entries index panel) (shift_index index active)
          ≡ get_panel dock.panel_entries active
    same none = refl
    same (some active) =
        get_elem?-shift dock.panel_entries panel index active
          (search_priority-le-length panel.activation_priority dock.panel_entries)

-- The panel that is active once an index is activated.
pub active_panel-activate_panel :
    (dock : Dock) (index : ℕ)
    → active_panel (activate_panel dock index) ≡ get_elem? dock.panel_entries index
active_panel-activate_panel dock index =
    let (a, p, o, s) = activate_panel_lem dock index in
    ap (get_panel (activate_panel dock index).panel_entries) a
    ∙ ap (λ (ps : List Panel). get_elem? ps index) p

pub active_panel-set_open :
    (dock : Dock) (b : Bool) → active_panel (set_open dock b) ≡ active_panel dock
active_panel-set_open dock b =
    let (o, p, a, s) = set_open_lem dock b in
    ap (get_panel (set_open dock b).panel_entries) a
    ∙ ap (λ (ps : List Panel). get_panel ps dock.active_panel_index) p
