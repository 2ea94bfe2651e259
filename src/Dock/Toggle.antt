-- ===== src/Dock/Toggle.antt =====
-- `toggle_dock`: what a dock shows once it is toggled.
use zaku.Prelude.{
  ℕ, ◌≡◌, ◌⊎◌, refl, ap, ◌∙◌, true, false, Option, none, some, arith, Bool-cases, Option-cases, inl,
  inr, position, get_elem?-position,
}
use zaku.Dock.{
  Panel, Dock, active_panel, visible_entry, set_open, activate_panel, first_enabled_panel_idx,
  needs_enabled_panel, open_enabled, toggle_dock,
}
use zaku.Dock.Active.{set_open_lem, active_panel-activate_panel, active_panel-set_open}

abbrev enabled_index : Dock → Option ℕ
enabled_index dock = position (λ (panel : Panel). panel.enabled) dock.panel_entries

open_enabled_keep :
    (dock : Dock)
    → needs_enabled_panel (active_panel dock) ≡ false
    → open_enabled dock ≡ set_open dock true
unfolding open_enabled
open_enabled_keep dock h = rw (open_enabled, h)

open_enabled-none :
    (dock : Dock)
    → needs_enabled_panel (active_panel dock) ≡ true
    → enabled_index dock ≡ none
    → open_enabled dock ≡ dock
unfolding open_enabled first_enabled_panel_idx
open_enabled-none dock h e = rw (open_enabled, h, first_enabled_panel_idx, e)

open_enabled-some :
    (dock : Dock) {index : ℕ}
    → needs_enabled_panel (active_panel dock) ≡ true
    → enabled_index dock ≡ some index
    → open_enabled dock ≡ set_open (activate_panel dock index) true
unfolding open_enabled first_enabled_panel_idx
open_enabled-some dock h e = rw (open_enabled, h, first_enabled_panel_idx, e)

enabled-of_kept :
    (o : Option Panel)
    → needs_enabled_panel o ≡ false
    → (panel : Panel) × (o ≡ some panel) × (panel.enabled ≡ true)
enabled-of_kept none h = cc
enabled-of_kept (some panel) h = (panel, refl, ground arith)

visible_entry-set_open : (dock : Dock) → visible_entry (set_open dock true) ≡ active_panel dock
unfolding visible_entry
visible_entry-set_open dock =
    rw (visible_entry, (set_open_lem dock true).0) (active_panel-set_open dock true)

-- An open dock that is toggled shows nothing.
pub toggle_dock-none : (dock : Dock) → dock.is_open ≡ true → visible_entry (toggle_dock dock) ≡ none
unfolding toggle_dock visible_entry
toggle_dock-none dock h =
    let closed : toggle_dock dock ≡ set_open dock false = simp (toggle_dock, h) in
    ap visible_entry closed ∙ rw (visible_entry, (set_open_lem dock false).0)

toggle_dock-closed : (dock : Dock) → dock.is_open ≡ false → toggle_dock dock ≡ open_enabled dock
unfolding toggle_dock
toggle_dock-closed dock h = simp (toggle_dock, h)

-- A closed dock that is toggled shows an enabled panel, or it has no enabled panel and is left as
-- it was.
pub toggle_dock-shows :
    (dock : Dock)
    → dock.is_open ≡ false
    → ((panel : Panel) × (visible_entry (toggle_dock dock) ≡ some panel) × (panel.enabled ≡ true))
      ⊎ ((toggle_dock dock ≡ dock)
          × (position (λ (panel : Panel). panel.enabled) dock.panel_entries ≡ none))
toggle_dock-shows dock h = elim (Bool-cases (needs_enabled_panel (active_panel dock))) [
  | inr q ↦
      let (panel, e, m) = enabled-of_kept (active_panel dock) q in
      inl (
        panel,
        ap visible_entry (toggle_dock-closed dock h ∙ open_enabled_keep dock q)
            ∙ visible_entry-set_open dock
            ∙ e,
        m,
      )
  | inl q ↦ elim (Option-cases (enabled_index dock)) [
    | inl n ↦ inr (toggle_dock-closed dock h ∙ open_enabled-none dock q n, n)
    | inr (index, n) ↦
        let (panel, e, m) =
          get_elem?-position (λ (panel : Panel). panel.enabled) dock.panel_entries index n in
        inl (
          panel,
          ap visible_entry (toggle_dock-closed dock h ∙ open_enabled-some dock q n)
              ∙ visible_entry-set_open (activate_panel dock index)
              ∙ active_panel-activate_panel dock index
              ∙ e,
          m,
        )
  ]
]
