-- ===== src/LogFilter/Fast.antt =====
-- What a look-up finds is one of the levels of the map, so a bound on those bounds it.
use mathlib.Core.Path.{subst}
use zaku.Prelude.{
  ℕ, zero, suc, ◌≤◌, ◌-◌, ◌&&◌, ◌||◌, ◌≡◌, refl, Bool, Option, none, some, List, [], ◌∷◌, All,
  Bool-cases, Option-cases, inl, inr, leb, if◌then◌else◌, find, length,
}
use zaku.Text.{Str, is_empty, str_eq}
use zaku.EnvConfig.{LevelFilter}
use zaku.LogFilter.{
  filter_as_u8, ScopeMapEntry, ScopeMap, take, drop, get_range, or_else, has_scope, search_from,
  search, has_module, replace_by, search_crate, search_modules, enabled_filter, is_unset, name_at,
}

-- A level that is set is at most the bound.
abbrev pub Bounded : ℕ → Option LevelFilter → Type 0
Bounded bound none = Unit
Bounded bound (some filter) = filter_as_u8 filter ≤ bound

abbrev pub EntryBounded : ℕ → ScopeMapEntry → Type 0
EntryBounded bound entry = Bounded bound entry.enabled

abbrev pub ModuleBounded : ℕ → Str × LevelFilter → Type 0
ModuleBounded bound entry = filter_as_u8 entry.1 ≤ bound

pub record MapBounded (bound : ℕ) (scope_map : ScopeMap) : Type 0 where
  pub of_entries : All (EntryBounded bound) scope_map.entries
  pub of_modules : All (ModuleBounded bound) scope_map.modules

module _ {ℓ κ} {A : Type ℓ} (P : A → Type κ) where
  All-take : (n : ℕ) (xs : List A) → All P xs → All P (take n xs)
  All-take zero xs h = tt
  All-take (suc n) [] h = tt
  All-take (suc n) (x ∷ xs) h = (h.0, All-take n xs h.1)

  All-drop : (n : ℕ) (xs : List A) → All P xs → All P (drop n xs)
  All-drop zero xs h = h
  All-drop (suc n) [] h = tt
  All-drop (suc n) (x ∷ xs) h = All-drop n xs h.1

  All-get_range :
      (start end : ℕ) (xs : List A) {range : List A}
      → get_range start end xs ≡ some range
      → All P xs
      → All P range
  All-get_range start end xs {range} e h =
      elim (Bool-cases (leb start end && leb end (length xs))) [
        | inl q ↦
            let same : take (end - start) (drop start xs) ≡ range = cc (rw q at e) in
            subst (All P) same (All-take (end - start) (drop start xs) (All-drop start xs h))
        | inr q ↦ cc (rw q at e)
      ]

  of_find : (p : A → Bool) (xs : List A) {x : A} → find p xs ≡ some x → All P xs → P x
  of_find p [] e h = cc
  of_find p (y ∷ xs) {x} e h = elim (Bool-cases (p y)) [
    | inl q ↦ let same : y ≡ x = cc (rw q at e) in subst P same h.0
    | inr q ↦ of_find p xs (rw q at e) h.1
  ]

Bounded-or_else :
    (bound : ℕ) (a b : Option LevelFilter)
    → Bounded bound a
    → Bounded bound b
    → Bounded bound (or_else a b)
Bounded-or_else bound none b h k = k
Bounded-or_else bound (some filter) b h k = h

module _ (bound : ℕ) (scope_map : ScopeMap) (h : MapBounded bound scope_map) where
  Bounded-search_from :
      (names : List Str) (range : List ScopeMapEntry) (enabled : Option LevelFilter)
      → All (EntryBounded bound) range
      → Bounded bound enabled
      → Bounded bound (search_from scope_map names range enabled)
  unfolding search_from
  Bounded-search_from [] range enabled r e = e
  Bounded-search_from (name ∷ names) range enabled r e =
      elim (Option-cases (if is_empty name then none else find (has_scope name) range)) [
        | inl q ↦ rw (search_from, q) e
        | inr (entry, q) ↦
            let b : EntryBounded bound entry = found entry q in
            elim (Option-cases
              (get_range entry.descendants_start entry.descendants_end scope_map.entries)) [
                | inl n ↦ rw (search_from, q, n) tt
                | inr (next_range, n) ↦
                    rw (search_from, q, n)
                      (Bounded-search_from names next_range (or_else entry.enabled enabled)
                        (All-get_range (EntryBounded bound) _ _ scope_map.entries n h.of_entries)
                        (Bounded-or_else bound entry.enabled enabled b e))
              ]
      ]
    where
      found :
          (entry : ScopeMapEntry)
          → (if is_empty name then none else find (has_scope name) range) ≡ some entry
          → EntryBounded bound entry
      found entry q = elim (Bool-cases (is_empty name)) [
        | inl m ↦ cc (rw m at q)
        | inr m ↦ of_find (EntryBounded bound) (has_scope name) range (rw m at q) r
      ]

  Bounded-search : (scope : List Str) → Bounded bound (search scope_map scope)
  unfolding search
  Bounded-search scope = elim (Option-cases (get_range 0 scope_map.root_count scope_map.entries)) [
    | inl q ↦ rw (search, q) tt
    | inr (range, q) ↦
        rw (search, q)
          (Bounded-search_from scope range none
            (All-get_range (EntryBounded bound) _ _ scope_map.entries q h.of_entries) tt)
  ]

  Bounded-search_crate :
      (scope : List Str) (name : Str) (enabled : Option LevelFilter)
      → Bounded bound enabled
      → Bounded bound (search_crate scope_map scope name enabled)
  unfolding search_crate
  Bounded-search_crate scope name enabled e =
      elim (Bool-cases (is_unset enabled && is_empty (name_at scope 0))) [
        | inl q ↦ rw (search_crate, q) (Bounded-search (name ∷ [] ∷ [] ∷ [] ∷ []))
        | inr q ↦ rw (search_crate, q) e
      ]

  Bounded-replace_by :
      (found : Option (Str × LevelFilter)) (enabled : Option LevelFilter)
      → ((entry : Str × LevelFilter) → found ≡ some entry → ModuleBounded bound entry)
      → Bounded bound enabled
      → Bounded bound (replace_by found enabled)
  Bounded-replace_by none enabled f e = e
  Bounded-replace_by (some entry) enabled f e = f entry refl

  Bounded-search_modules :
      (scope : List Str) (name module_path : Str) (enabled : Option LevelFilter)
      → Bounded bound enabled
      → Bounded bound (search_modules scope_map scope name module_path enabled)
  unfolding search_modules
  Bounded-search_modules scope name module_path enabled e =
      elim (Bool-cases
        (is_unset enabled || str_eq (name_at scope 0) name && is_empty (name_at scope 1))) [
          | inl q ↦
              rw (search_modules, q)
                (Bounded-replace_by (find (has_module module_path) scope_map.modules) enabled
                  (λ entry m.
                    of_find (ModuleBounded bound) (has_module module_path) scope_map.modules m
                      h.of_modules)
                  e)
          | inr q ↦ rw (search_modules, q) e
        ]

  pub Bounded-enabled_filter :
      (scope : List Str) (module_path : Option Str)
      → Bounded bound (enabled_filter scope_map scope module_path)
  unfolding enabled_filter
  Bounded-enabled_filter scope none = Bounded-search scope
  Bounded-enabled_filter scope (some module_path) =
      Bounded-search_modules scope _ module_path _
        (Bounded-search_crate scope _ _ (Bounded-search scope))
