-- ===== src/LogFilter/Scopes.antt =====
-- crates/logger/src/filter.rs, `scope_alloc_from_scope_str`: the scope that a key of the settings
-- names.
use zaku.Prelude.{
  ℕ, zero, suc, ◌≤◌, ◌≡◌, refl, ap, ◌∙◌, true, false, Option, none, some, List, [], ◌∷◌, ◌++◌,
  arith, All, length,
}
use zaku.Text.{Str, is_empty, split}
use zaku.Text.Split.{Lacks, split-Lacks, split-append}

-- The loop over the four places: the names that are not empty, and the pieces that are left.
abbrev pub take_names : ℕ → List Str → List Str × List Str
take_names zero pieces = ([], pieces)
take_names (suc places) [] = ([], [])
take_names (suc places) (piece ∷ pieces) = elim (is_empty piece) [
  | true ↦ take_names (suc places) pieces
  | false ↦ (piece ∷ (take_names places pieces).0, (take_names places pieces).1)
]

-- A scope of four places.
abbrev pub pad : ℕ → List Str → List Str
pad zero names = names
pad (suc places) [] = [] ∷ pad places []
pad (suc places) (name ∷ names) = name ∷ pad places names

abbrev pub checked_scope : List Str → List Str → Option (List Str)
checked_scope [] rest = none
checked_scope (name ∷ names) [] = some (pad 4 (name ∷ names))
checked_scope (name ∷ names) (piece ∷ pieces) = none

unfoldable pub scope_alloc_from_scope_str : Str → Option (List Str)
scope_alloc_from_scope_str scope_str =
    let (names, rest) = take_names 4 (split b'.' scope_str) in checked_scope names rest

-- The key of some names.
abbrev pub scope_key : List Str → Str
scope_key [] = []
scope_key (name ∷ []) = name
scope_key (name ∷ next ∷ names) = name ++ b'.' ∷ scope_key (next ∷ names)

abbrev pub IsScopeName : Str → Type 0
IsScopeName name = (is_empty name ≡ false) × Lacks b'.' name

split-scope_key :
    (name : Str) (names : List Str)
    → All IsScopeName (name ∷ names)
    → split b'.' (scope_key (name ∷ names)) ≡ name ∷ names
split-scope_key name [] h = split-Lacks b'.' name h.0.1
split-scope_key name (next ∷ names) h =
    split-append b'.' name (scope_key (next ∷ names)) h.0.1
    ∙ ap (name ∷◌) (split-scope_key next names h.1)

take_names-IsScopeName :
    (places : ℕ) (names : List Str)
    → length names ≤ places
    → All IsScopeName names
    → take_names places names ≡ (names, [])
take_names-IsScopeName zero [] le h = refl
take_names-IsScopeName zero (name ∷ names) le h = absurd (omega arith)
take_names-IsScopeName (suc places) [] le h = refl
take_names-IsScopeName (suc places) (name ∷ names) le h =
    rw (take_names, h.0.0)
      (ap (λ (p : List Str × List Str). (name ∷ p.0, p.1))
        (take_names-IsScopeName places names (omega arith) h.1))

-- The key of one to four names, not empty and without a dot, is read as the scope of these names,
-- with empty ones behind them.
pub scope_alloc_from_scope_str-scope_key :
    (name : Str) (names : List Str)
    → All IsScopeName (name ∷ names)
    → length names ≤ 3
    → scope_alloc_from_scope_str (scope_key (name ∷ names)) ≡ some (pad 4 (name ∷ names))
unfolding scope_alloc_from_scope_str
scope_alloc_from_scope_str-scope_key name names h le =
    ap (λ (pieces : List Str). checked_scope (take_names 4 pieces).0 (take_names 4 pieces).1)
      (split-scope_key name names h)
    ∙ ap (λ (p : List Str × List Str). checked_scope p.0 p.1)
        (take_names-IsScopeName 4 (name ∷ names) (omega arith) h)
