-- ===== src/LogFilter/Refreshed.antt =====
-- The first test of `is_scope_enabled`, which spares the look-up in the map, changes no answer.
use Prim.Native.Nat.{max}
use zaku.Prelude.{
  ℕ, ◌≤◌, ◌≡◌, sym, true, Option, none, some, List, [], ◌∷◌, arith, All, Bool-cases, Option-cases,
  inl, inr, leb,
}
use zaku.Text.{Str}
use zaku.EnvConfig.{LevelFilter}
use zaku.LogFilter.{
  Level, level_as_u8, filter_as_u8, ScopeMapEntry, ScopeMap, FilterState, enabled_filter, status,
  by_status, is_enabled, is_scope_enabled_in_map, is_scope_enabled, is_possibly_enabled_level,
  max_entry, max_entries, max_modules, level_enabled_max, refresh, map_is_empty,
}
use zaku.LogFilter.Fast.{Bounded, EntryBounded, ModuleBounded, MapBounded, Bounded-enabled_filter}

max_entry-le : (start : ℕ) (entry : ScopeMapEntry) → start ≤ max_entry start entry
max_entry-le start entry = ground arith

max_entry-EntryBounded :
    (start : ℕ) (entry : ScopeMapEntry) → EntryBounded (max_entry start entry) entry
max_entry-EntryBounded start entry = ground (arith, Option-cases entry.enabled)

max_entries-le : (start : ℕ) (entries : List ScopeMapEntry) → start ≤ max_entries start entries
max_entries-le start [] = omega arith
max_entries-le start (entry ∷ entries) =
    omega (arith, max_entry-le start entry, max_entries-le (max_entry start entry) entries)

Bounded-weaken : (a b : ℕ) (o : Option LevelFilter) → a ≤ b → Bounded a o → Bounded b o
Bounded-weaken a b none h k = tt
Bounded-weaken a b (some filter) h k = omega arith

All-weaken :
    (a b : ℕ) (entries : List ScopeMapEntry)
    → a ≤ b
    → All (EntryBounded a) entries
    → All (EntryBounded b) entries
All-weaken a b [] h k = tt
All-weaken a b (entry ∷ entries) h k =
    (Bounded-weaken a b entry.enabled h k.0, All-weaken a b entries h k.1)

max_entries-EntryBounded :
    (start : ℕ) (entries : List ScopeMapEntry)
    → All (EntryBounded (max_entries start entries)) entries
max_entries-EntryBounded start [] = tt
max_entries-EntryBounded start (entry ∷ entries) = (
  Bounded-weaken (max_entry start entry) _ entry.enabled
      (max_entries-le (max_entry start entry) entries) (max_entry-EntryBounded start entry),
  max_entries-EntryBounded (max_entry start entry) entries,
)

max_modules-le :
    (start : ℕ) (modules : List (Str × LevelFilter)) → start ≤ max_modules start modules
max_modules-le start [] = omega arith
max_modules-le start (entry ∷ entries) =
    omega (arith, max_modules-le (max start (filter_as_u8 entry.1)) entries)

max_modules-ModuleBounded :
    (start : ℕ) (modules : List (Str × LevelFilter))
    → All (ModuleBounded (max_modules start modules)) modules
max_modules-ModuleBounded start [] = tt
max_modules-ModuleBounded start (entry ∷ entries) = (
  omega (arith, max_modules-le (max start (filter_as_u8 entry.1)) entries),
  max_modules-ModuleBounded (max start (filter_as_u8 entry.1)) entries,
)

level_enabled_max-le :
    (start : ℕ) (scope_map : ScopeMap) → start ≤ level_enabled_max start scope_map
unfolding level_enabled_max
level_enabled_max-le start scope_map = omega (
  arith,
  max_entries-le start scope_map.entries,
  max_modules-le (max_entries start scope_map.entries) scope_map.modules,
)

level_enabled_max-MapBounded :
    (start : ℕ) (scope_map : ScopeMap) → MapBounded (level_enabled_max start scope_map) scope_map
unfolding level_enabled_max
level_enabled_max-MapBounded start scope_map = record {
  of_entries =
      All-weaken (max_entries start scope_map.entries) _ scope_map.entries
        (max_modules-le (max_entries start scope_map.entries) scope_map.modules)
        (max_entries-EntryBounded start scope_map.entries);
  of_modules = max_modules-ModuleBounded (max_entries start scope_map.entries) scope_map.modules;
}

-- What is let through stays below a bound on the static level and on the filter that is found.
by_status-le :
    (bound static : ℕ) (filter : Option LevelFilter) (level : Level)
    → static ≤ bound
    → Bounded bound filter
    → by_status (status filter level) (leb (level_as_u8 level) static) ≡ true
    → level_as_u8 level ≤ bound
by_status-le bound static none level h k e = ground arith
by_status-le bound static (some filter) level h k e =
    elim (Bool-cases (leb (level_as_u8 level) (filter_as_u8 filter))) [
      | inl q ↦ ground arith
      | inr q ↦ cc (rw q at e)
    ]

module _ (state : FilterState) (map_new : ScopeMap) (scope : List Str) (module_path : Option Str)
    (level : Level) where
  let_through :
      is_scope_enabled_in_map (refresh state map_new) scope module_path level ≡ true
      → is_possibly_enabled_level (refresh state map_new) level ≡ true
  unfolding is_scope_enabled_in_map refresh is_enabled
  let_through h = elim (Bool-cases (map_is_empty map_new)) [
    | inl q ↦
        let e : leb (level_as_u8 level) state.level_enabled_max_static ≡ true =
          rw (is_scope_enabled_in_map, refresh, q) at h in
        ground (arith, level_enabled_max-le state.level_enabled_max_static map_new)
    | inr q ↦
        let le =
          by_status-le (level_enabled_max state.level_enabled_max_static map_new)
            state.level_enabled_max_static (enabled_filter map_new scope module_path) level
            (level_enabled_max-le state.level_enabled_max_static map_new)
            (Bounded-enabled_filter _ map_new
              (level_enabled_max-MapBounded state.level_enabled_max_static map_new) scope
              module_path)
            (rw (is_scope_enabled_in_map, refresh, q) at h) in
        ground arith
  ]

  -- After the settings were read, the test against the greatest enabled level changes no answer:
  -- `is_scope_enabled` answers what the look-up in the map alone answers.
  pub is_scope_enabled-refresh :
      is_scope_enabled (refresh state map_new) scope module_path level
      ≡ is_scope_enabled_in_map (refresh state map_new) scope module_path level
  unfolding is_scope_enabled
  is_scope_enabled-refresh =
      elim (Bool-cases (is_possibly_enabled_level (refresh state map_new) level)) [
        | inl q ↦ rw (is_scope_enabled, q)
        | inr q ↦
            rw (is_scope_enabled, q)
              (sym
                (elim (Bool-cases
                  (is_scope_enabled_in_map (refresh state map_new) scope module_path level)) [
                    | inl t ↦ cc (let_through t)
                    | inr f ↦ f
                  ]))
      ]
