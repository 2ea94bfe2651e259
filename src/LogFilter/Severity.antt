-- ===== src/LogFilter/Severity.antt =====
-- A more severe record is let through wherever a less severe one is.
use zaku.Prelude.{
  ℕ, ◌≤◌, ◌≡◌, refl, true, Option, none, some, List, arith, Bool-cases, inl, inr, leb,
}
use zaku.Text.{Str}
use zaku.EnvConfig.{LevelFilter}
use zaku.LogFilter.{
  Level, level_as_u8, filter_as_u8, FilterState, enabled_filter, status, by_status, is_enabled,
  is_scope_enabled_in_map, is_scope_enabled, is_possibly_enabled_level, map_is_empty,
}

by_status-severe :
    (static : ℕ) (filter : Option LevelFilter) (a b : Level)
    → level_as_u8 a ≤ level_as_u8 b
    → by_status (status filter b) (leb (level_as_u8 b) static) ≡ true
    → by_status (status filter a) (leb (level_as_u8 a) static) ≡ true
by_status-severe static none a b h e = ground arith
by_status-severe static (some filter) a b h e =
    elim (Bool-cases (leb (level_as_u8 b) (filter_as_u8 filter))) [
      | inl q ↦ let r : leb (level_as_u8 a) (filter_as_u8 filter) ≡ true = ground arith in rw r refl
      | inr q ↦ cc (rw q at e)
    ]

is_scope_enabled_in_map-severe :
    (state : FilterState) (scope : List Str) (module_path : Option Str) (a b : Level)
    → level_as_u8 a ≤ level_as_u8 b
    → is_scope_enabled_in_map state scope module_path b ≡ true
    → is_scope_enabled_in_map state scope module_path a ≡ true
unfolding is_scope_enabled_in_map is_enabled
is_scope_enabled_in_map-severe state scope module_path a b h e =
    elim (Bool-cases (map_is_empty state.scope_map)) [
      | inl q ↦
          let r : leb (level_as_u8 b) state.level_enabled_max_static ≡ true =
            rw (is_scope_enabled_in_map, q) at e in
          rw (is_scope_enabled_in_map, q) (ground arith)
      | inr q ↦
          rw (is_scope_enabled_in_map, q)
            (by_status-severe state.level_enabled_max_static
              (enabled_filter state.scope_map scope module_path) a b h
              (rw (is_scope_enabled_in_map, q) at e))
    ]

-- If a record of some level is let through, so is every record of the same scope and module that is
-- at least as severe.
pub is_scope_enabled-severe :
    (state : FilterState) (scope : List Str) (module_path : Option Str) (a b : Level)
    → level_as_u8 a ≤ level_as_u8 b
    → is_scope_enabled state scope module_path b ≡ true
    → is_scope_enabled state scope module_path a ≡ true
unfolding is_scope_enabled
is_scope_enabled-severe state scope module_path a b h e =
    elim (Bool-cases (is_possibly_enabled_level state b)) [
      | inl q ↦
          let r : is_possibly_enabled_level state a ≡ true = ground arith in
          rw (is_scope_enabled, r)
            (is_scope_enabled_in_map-severe state scope module_path a b h
              (rw (is_scope_enabled, q) at e))
      | inr q ↦ cc (rw (is_scope_enabled, q) at e)
    ]
