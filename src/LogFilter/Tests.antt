-- ===== src/LogFilter/Tests.antt =====
-- The theorems on a map with one scope and a scope below it.
use zaku.Prelude.{◌≡◌, refl, true, none, some, List, [], ◌∷◌}
use zaku.Text.{Str, text}
use zaku.EnvConfig.{level_warn, level_debug}
use zaku.LogFilter.{
  Level, ScopeMap, FilterState, refresh, level_enabled_max, search, search_from, enabled_filter,
  is_enabled, is_scope_enabled, is_scope_enabled_in_map,
}
use zaku.LogFilter.Scopes.{scope_alloc_from_scope_str}
use zaku.LogFilter.Refreshed.{is_scope_enabled-refresh}

-- `project = warn` and `project.search = debug`.
abbrev small_map : ScopeMap
small_map = record {
  entries =
      record {
        scope = text "project";
        enabled = some level_warn;
        descendants_start = 1;
        descendants_end = 2;
      }
      ∷ record {
        scope = text "search";
        enabled = some level_debug;
        descendants_start = 0;
        descendants_end = 0;
      }
      ∷ [];
  modules = [];
  root_count = 1;
}

abbrev initial : FilterState
initial = record {
  scope_map = record { entries = []; modules = []; root_count = 0 };
  level_enabled_max_static = 3;
  level_enabled_max_config = 3;
}

abbrev search_scope : List Str
search_scope = text "project" ∷ text "search" ∷ [] ∷ [] ∷ []

is_scope_enabled-refresh_example :
    is_scope_enabled (refresh initial small_map) search_scope none Level.debug
    ≡ is_scope_enabled_in_map (refresh initial small_map) search_scope none Level.debug
is_scope_enabled-refresh_example =
    is_scope_enabled-refresh initial small_map search_scope none Level.debug

debug_enabled : is_scope_enabled (refresh initial small_map) search_scope none Level.debug ≡ true
unfolding is_scope_enabled is_scope_enabled_in_map is_enabled enabled_filter search search_from
    refresh level_enabled_max
debug_enabled = refl

-- The scope below the configured one takes over its level.
project_filter : search small_map (text "project" ∷ text "other" ∷ [] ∷ [] ∷ []) ≡ some level_warn
unfolding search search_from
project_filter = refl

-- A dot at the end is passed over behind three names, but not behind four.
scope_three :
    scope_alloc_from_scope_str (text "a.b.c.") ≡ some (text "a" ∷ text "b" ∷ text "c" ∷ [] ∷ [])
unfolding scope_alloc_from_scope_str
scope_three = refl

scope_four : scope_alloc_from_scope_str (text "a.b.c.d.") ≡ none
unfolding scope_alloc_from_scope_str
scope_four = refl
