-- ===== src/LogFilter.antt =====
-- crates/logger/src/filter.rs: which log records a scope map lets through. The global atomics and
-- the lock are the fields of a state; how the map is built from settings is left out.
pub mod Fast
pub mod Refreshed
pub mod Severity
pub mod Scopes
mod Tests
use Prim.Native.Nat.{max}
use zaku.Prelude.{
  ℕ, zero, suc, ◌-◌, Bool, true, false, not, ◌&&◌, ◌||◌, Option, none, some, List, [], ◌∷◌, length,
  get_elem?, leb, if◌then◌else◌, find, map, ◌==◌,
}
use zaku.Text.{Str, is_empty, str_eq, split_once, text}
use zaku.EnvConfig.{
  LevelFilter, level_off, level_error, level_warn, level_info, level_debug, level_trace,
}
use zaku.Text.{to_ascii_lowercase}

-- `log::Level`
pub data Level : Type 0 where
  error warn info debug trace : Level

abbrev pub level_as_u8 : Level → ℕ
level_as_u8 error = 1
level_as_u8 warn = 2
level_as_u8 info = 3
level_as_u8 debug = 4
level_as_u8 trace = 5

abbrev pub filter_as_u8 : LevelFilter → ℕ
filter_as_u8 level_off = 0
filter_as_u8 level_error = 1
filter_as_u8 level_warn = 2
filter_as_u8 level_info = 3
filter_as_u8 level_debug = 4
filter_as_u8 level_trace = 5

pub record ScopeMapEntry : Type 0 where
  pub scope : Str
  pub enabled : Option LevelFilter
  pub descendants_start : ℕ
  pub descendants_end : ℕ

pub data EnabledStatus : Type 0 where
  status_enabled status_disabled status_not_configured : EnabledStatus

pub record ScopeMap : Type 0 where
  pub entries : List ScopeMapEntry
  pub modules : List (Str × LevelFilter)
  pub root_count : ℕ

-- The globals: the map, and the two levels that bound what is let through.
pub record FilterState : Type 0 where
  pub scope_map : ScopeMap
  pub level_enabled_max_static : ℕ
  pub level_enabled_max_config : ℕ

-- `slice::get` of a range.
abbrev pub take {ℓ} : {A : Type ℓ} → ℕ → List A → List A
take zero xs = []
take (suc n) [] = []
take (suc n) (x ∷ xs) = x ∷ take n xs

abbrev pub drop {ℓ} : {A : Type ℓ} → ℕ → List A → List A
drop zero xs = xs
drop (suc n) [] = []
drop (suc n) (x ∷ xs) = drop n xs

abbrev pub get_range {ℓ} : {A : Type ℓ} → ℕ → ℕ → List A → Option (List A)
get_range start end xs =
    if leb start end && leb end (length xs) then some (take (end - start) (drop start xs)) else none

abbrev pub or_else {ℓ} : {A : Type ℓ} → Option A → Option A → Option A
or_else none b = b
or_else (some a) b = some a

abbrev pub is_unset {ℓ} : {A : Type ℓ} → Option A → Bool
is_unset none = true
is_unset (some a) = false

abbrev pub has_scope : Str → ScopeMapEntry → Bool
has_scope scope_name entry = str_eq entry.scope scope_name

-- The loop of `search`: one round for each name of the scope.
unfoldable pub search_from :
    ScopeMap → List Str → List ScopeMapEntry → Option LevelFilter → Option LevelFilter
search_from scope_map [] current_range enabled = enabled
search_from scope_map (scope_name ∷ names) current_range enabled =
    elim (if is_empty scope_name then none else find (has_scope scope_name) current_range) [
      | none ↦ enabled
      | some entry ↦
          elim (get_range entry.descendants_start entry.descendants_end scope_map.entries) [
            | none ↦ none
            | some range ↦ search_from scope_map names range (or_else entry.enabled enabled)
          ]
    ]

unfoldable pub search : ScopeMap → List Str → Option LevelFilter
search scope_map scope = elim (get_range 0 scope_map.root_count scope_map.entries) [
  | none ↦ none
  | some range ↦ search_from scope_map scope range none
]

-- A scope is an array of four names; names that are not used are empty.
abbrev pub name_at : List Str → ℕ → Str
name_at scope i = elim (get_elem? scope i) [ none ↦ [] | some name ↦ name ]

abbrev pub has_module : Str → Str × LevelFilter → Bool
has_module module_path entry = str_eq entry.0 module_path

abbrev pub none_left {ℓ} : {A : Type ℓ} → List A → Bool
none_left [] = true
none_left (x ∷ xs) = false

abbrev pub replace_by : Option (Str × LevelFilter) → Option LevelFilter → Option LevelFilter
replace_by none enabled = enabled
replace_by (some entry) enabled = some entry.1

-- crates/logger/src/logger.rs: what stands before the first `::` of a module path.
unfoldable pub extract_crate_name_from_module_path : Str → Str
extract_crate_name_from_module_path [] = []
extract_crate_name_from_module_path (c ∷ []) = c ∷ []
extract_crate_name_from_module_path (c ∷ d ∷ s) =
    let rest = extract_crate_name_from_module_path (d ∷ s) in
    if c == b':' && d == b':' then [] else c ∷ rest

-- The two rounds of `is_enabled` that look at the module path.
unfoldable pub search_crate : ScopeMap → List Str → Str → Option LevelFilter → Option LevelFilter
search_crate scope_map scope crate_name enabled =
    if is_unset enabled && is_empty (name_at scope 0)
    then search scope_map (crate_name ∷ [] ∷ [] ∷ [] ∷ [])
    else enabled

unfoldable pub search_modules :
    ScopeMap → List Str → Str → Str → Option LevelFilter → Option LevelFilter
search_modules scope_map scope crate_name module_path enabled =
    if is_unset enabled || str_eq (name_at scope 0) crate_name && is_empty (name_at scope 1)
    then replace_by (find (has_module module_path) scope_map.modules) enabled
    else enabled

unfoldable pub enabled_filter : ScopeMap → List Str → Option Str → Option LevelFilter
enabled_filter scope_map scope none = search scope_map scope
enabled_filter scope_map scope (some module_path) =
    let crate_name = extract_crate_name_from_module_path module_path in
    search_modules scope_map scope crate_name module_path
      (search_crate scope_map scope crate_name (search scope_map scope))

abbrev pub status : Option LevelFilter → Level → EnabledStatus
status none level = status_not_configured
status (some filter) level =
    if leb (level_as_u8 level) (filter_as_u8 filter) then status_enabled else status_disabled

unfoldable pub is_enabled : ScopeMap → List Str → Option Str → Level → EnabledStatus
is_enabled scope_map scope module_path level =
    status (enabled_filter scope_map scope module_path) level

abbrev pub map_is_empty : ScopeMap → Bool
map_is_empty scope_map = none_left scope_map.entries && none_left scope_map.modules

abbrev pub is_possibly_enabled_level : FilterState → Level → Bool
is_possibly_enabled_level state level = leb (level_as_u8 level) state.level_enabled_max_config

abbrev pub by_status : EnabledStatus → Bool → Bool
by_status status_not_configured is_enabled_by_default = is_enabled_by_default
by_status status_enabled is_enabled_by_default = true
by_status status_disabled is_enabled_by_default = false

-- `is_scope_enabled` behind its first test.
unfoldable pub is_scope_enabled_in_map : FilterState → List Str → Option Str → Level → Bool
is_scope_enabled_in_map state scope module_path level =
    let is_enabled_by_default = leb (level_as_u8 level) state.level_enabled_max_static in
    if map_is_empty state.scope_map
    then is_enabled_by_default
    else by_status (is_enabled state.scope_map scope module_path level) is_enabled_by_default

unfoldable pub is_scope_enabled : FilterState → List Str → Option Str → Level → Bool
is_scope_enabled state scope module_path level =
    if not (is_possibly_enabled_level state level)
    then false
    else is_scope_enabled_in_map state scope module_path level

-- `level_enabled_max`: the greatest of the static level and the levels of the map.
abbrev pub max_entry : ℕ → ScopeMapEntry → ℕ
max_entry level_enabled_max entry = elim entry.enabled [
  | none ↦ level_enabled_max
  | some level ↦ max level_enabled_max (filter_as_u8 level)
]

abbrev pub max_entries : ℕ → List ScopeMapEntry → ℕ
max_entries level_enabled_max [] = level_enabled_max
max_entries level_enabled_max (entry ∷ entries) =
    max_entries (max_entry level_enabled_max entry) entries

abbrev pub max_modules : ℕ → List (Str × LevelFilter) → ℕ
max_modules level_enabled_max [] = level_enabled_max
max_modules level_enabled_max (entry ∷ entries) =
    max_modules (max level_enabled_max (filter_as_u8 entry.1)) entries

unfoldable pub level_enabled_max : ℕ → ScopeMap → ℕ
level_enabled_max level_static scope_map =
    max_modules (max_entries level_static scope_map.entries) scope_map.modules

-- `refresh_from_settings`, from the map that was built.
unfoldable pub refresh : FilterState → ScopeMap → FilterState
refresh state map_new = record state {
  scope_map = map_new;
  level_enabled_max_config = level_enabled_max state.level_enabled_max_static map_new;
}

-- `level_filter_from_str`; its warnings are left out.
unfoldable pub level_filter_from_str : Str → Option LevelFilter
level_filter_from_str level_str =
    let level = map to_ascii_lowercase level_str in
    if is_empty level || str_eq level (text "trace")
    then some level_trace
    else if str_eq level (text "debug")
    then some level_debug
    else if str_eq level (text "info")
    then some level_info
    else if str_eq level (text "warn")
    then some level_warn
    else if str_eq level (text "error")
    then some level_error
    else if str_eq level (text "off")
    then some level_off
    else if str_eq level (text "disable")
        || str_eq level (text "no")
        || str_eq level (text "none")
        || str_eq level (text "disabled")
    then some level_off
    else none
