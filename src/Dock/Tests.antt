-- ===== src/Dock/Tests.antt =====
-- The theorems on a dock with two panels.
use zaku.Prelude.{◌≡◌, refl, true, false, [], ◌∷◌}
use zaku.Text.{text}
use zaku.Dock.{Panel, PanelCall, Dock, empty_dock, set_open, activate_panel, add_panel}
use zaku.Dock.Active.{IsValid}
use zaku.Dock.Restore.{add_panel-IsValid}

abbrev project_panel : Panel
project_panel = record {
  panel_id = 1;
  persistent_name = text "Project Panel";
  activation_priority = 0;
  starts_open = true;
  enabled = true;
}

abbrev outline_panel : Panel
outline_panel = record {
  panel_id = 2;
  persistent_name = text "Outline";
  activation_priority = 5;
  starts_open = false;
  enabled = true;
}

empty-IsValid : IsValid empty_dock
empty-IsValid = record { ascending = tt; in_range = tt }

abbrev with_outline : Dock
with_outline = record empty_dock { panel_entries = outline_panel ∷ [] }

with_outline-IsValid : IsValid with_outline
with_outline-IsValid = record { ascending = (tt, tt); in_range = tt }

add_panel-IsValid_example : IsValid (add_panel with_outline project_panel).0
add_panel-IsValid_example = add_panel-IsValid with_outline project_panel with_outline-IsValid

-- A panel that is activated while the dock is closed is told so twice, once now and once when the
-- dock opens.
told_twice :
    (set_open (activate_panel with_outline 0) true).calls
    ≡ PanelCall.set_active 2 true ∷ PanelCall.set_active 2 true ∷ []
unfolding set_open activate_panel
told_twice = refl
