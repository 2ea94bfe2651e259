-- ===== src/CommandPalette/Keys.antt =====
-- crates/command_palette/src/command_palette.rs: the key down undoes the key up.
use zaku.Prelude.{
  ◌≡◌, refl, sym, ap, ◌∙◌, ℕ, suc, ◌+◌, ◌-◌, Option, none, some, List, [], length, get_elem?, arith,
  lt-length_of_get_elem?, length-append, get_elem?-length, ◌++◌, ◌∷◌, position,
}
use mathlib.Core.Path.{subst}
use zaku.Text.{Str, str_eq}
use zaku.Text.Split.{str_eq_self}
use zaku.CommandPalette.{
  QueryHistory, add, without_found, unwrap_or, found_at, search_back, search_forward, queries_of,
  loaded, reset_cursor, validate_cursor, previous_from, previous, next_from, next, or_typed, up,
  down, select_history,
}
use zaku.CommandPalette.Search.{Matches, search_back_lem, search_forward_lem, search_forward-none}
use zaku.CommandPalette.Valid.{of_parts}

-- The text in the field is the query that the cursor stands on, which starts with the prefix.
abbrev pub IsShown : List Str → Str → Str → Option ℕ → Type 0
IsShown queries prefix query none = Unit
IsShown queries prefix query (some index) =
    Matches prefix queries index × (get_elem? queries index ≡ some query)

module _ (recent : List Str) where
  validate_shown :
      (history : Option (List Str)) (index : ℕ) (prefix : Option Str) (query : Str)
      → get_elem? (unwrap_or history recent) index ≡ some query
      → validate_cursor recent query (of_parts history (some index) prefix)
        ≡ of_parts (some (unwrap_or history recent)) (some index) prefix
  unfolding validate_cursor loaded queries_of
  validate_shown history index prefix query shown = rw (shown, str_eq_self query)

  -- A step up from a query that is shown is a search before it.
  previous_shown :
      (history : Option (List Str)) (index : ℕ) (prefix : Option Str) (query : Str)
      → get_elem? (unwrap_or history recent) index ≡ some query
      → let queries = unwrap_or history recent in
        previous recent query (of_parts history (some index) prefix)
        ≡ found_at queries
            (of_parts (some queries) (some index) prefix)
            (search_back (unwrap_or prefix []) queries index)
  unfolding previous previous_from loaded queries_of
  previous_shown history index prefix query shown =
      ap (previous_from recent query) (validate_shown history index prefix query shown)

  -- A step down from a query that is shown is a search behind it.
  next_shown :
      (queries : List Str) (index : ℕ) (prefix : Option Str) (query : Str)
      → get_elem? queries index ≡ some query
      → let h = of_parts (some queries) (some index) prefix in
        next recent query h
        ≡ found_at queries h (
            search_forward (unwrap_or prefix []) queries (index + 1) (length queries - (index + 1)))
  unfolding next next_from validate_cursor loaded queries_of
  next_shown queries index prefix query shown =
      ap (next_from recent) (validate_shown (some queries) index prefix query shown)

  -- From the text that was typed, up and then down.
  up_down_typed :
      (queries : List Str) (query q : Str) (k : ℕ) (o : Option ℕ)
      → search_back query queries (length queries) ≡ o
      → let p = found_at queries (of_parts (some queries) none (some query)) o in
        p.1 ≡ some q
        → let back = select_history recent down k q p.0 in
          (back.1 ≡ some query) × (back.0.cursor ≡ none)
  unfolding select_history reset_cursor
  up_down_typed queries query q k none e h = absurd (cc h)
  up_down_typed queries query q k (some index) e h =
      let (below, here, skip) = search_back_lem query queries (length queries) index e in
      let at_end =
        next_shown queries index (some query) q h
        ∙ ap (found_at queries (of_parts (some queries) (some index) (some query))) (
            search_forward-none query queries (length queries - (index + 1)) (index + 1)
              (length queries) (omega arith) (λ i from under. skip i (omega arith) under)) in
      (ap (λ p. (or_typed recent p).1) at_end, ap (λ p. (or_typed recent p).0.cursor) at_end)

  -- From a query of the history, up and then down.
  up_down_shown :
      (queries : List Str) (from : ℕ) (prefix : Option Str) (query q : Str) (k : ℕ) (o : Option ℕ)
      → Matches (unwrap_or prefix []) queries from
      → get_elem? queries from ≡ some query
      → search_back (unwrap_or prefix []) queries from ≡ o
      → let p = found_at queries (of_parts (some queries) (some from) prefix) o in
        p.1 ≡ some q
        → let back = select_history recent down k q p.0 in
          (back.1 ≡ some query) × (back.0.cursor ≡ some from)
  unfolding select_history
  up_down_shown queries from prefix query q k none starts shown e h = absurd (cc h)
  up_down_shown queries from prefix query q k (some index) starts shown e h =
      let text = unwrap_or prefix [] in
      let (below, here, skip) = search_back_lem text queries from index e in
      let count = length queries - (index + 1) in
      let behind =
        next_shown queries index prefix q h
        ∙ ap (found_at queries (of_parts (some queries) (some index) prefix)) (
            search_forward_lem text queries count (index + 1) from (omega arith)
              (omega (arith, lt-length_of_get_elem? queries from shown))
              (λ i low under. skip i (omega arith) under) starts) in
      let then_shown =
        behind ∙ ap (λ (o : Option Str). (of_parts (some queries) (some from) prefix, o)) shown in
      (
        ap (λ p. (or_typed recent p).1) then_shown,
        ap (λ p. (or_typed recent p).0.cursor) then_shown,
      )

  -- What the keys up and down, one after the other, give back.
  abbrev pub Returns : Str → Option ℕ → Str → ℕ → QueryHistory × Option Str → Type 0
  Returns query cursor q k above =
      above.1 ≡ some q
      → let back = select_history recent down k q above.0 in
        (back.1 ≡ some query) × (back.0.cursor ≡ cursor)

  up_down-fields :
      (history : Option (List Str)) (cursor : Option ℕ) (prefix : Option Str) (query q : Str)
      (k : ℕ)
      → let h = of_parts history cursor prefix in
        IsShown (queries_of recent h) (unwrap_or prefix []) query cursor
        → Returns query cursor q k (previous recent query h)
  unfolding previous previous_from validate_cursor loaded queries_of
  up_down-fields history none prefix query q k shown =
      let queries = unwrap_or history recent in
      up_down_typed queries query q k (search_back query queries (length queries)) refl
  up_down-fields history (some from) prefix query q k (starts, shown) =
      let queries = unwrap_or history recent in
      subst (Returns query (some from) q k) (sym (previous_shown history from prefix query shown)) (
        up_down_shown queries from prefix query q k (search_back (unwrap_or prefix []) queries from)
          starts shown refl)

  -- Where the first match of the palette is selected, and the field holds the text that was typed or
  -- the query that the cursor of the history stands on: if the key up shows a query of the history,
  -- then the key down shows the text of before again, and the cursor stands where it stood.
  pub select_history-up_down :
      (h : QueryHistory) (query q : Str) (k : ℕ)
      → IsShown (queries_of recent h) (unwrap_or h.prefix []) query h.cursor
      → (select_history recent up 0 query h).1 ≡ some q
      → let back = select_history recent down k q (select_history recent up 0 query h).0 in
        (back.1 ≡ some query) × (back.0.cursor ≡ h.cursor)
  unfolding select_history
  select_history-up_down h query q k = up_down-fields h.history h.cursor h.prefix query q k

  last_index :
      (queries : List Str) (query : Str) → length (queries ++ query ∷ []) ≡ suc (length queries)
  last_index queries query = omega (arith, length-append queries (query ∷ []))

  search_back_all :
      (queries : List Str) (query : Str)
      → search_back [] (queries ++ query ∷ []) (length (queries ++ query ∷ []))
        ≡ some (length queries)
  unfolding search_back
  search_back_all queries query =
      rw (last_index queries query) (rw (get_elem?-length queries query []))

  -- A query that was just added is the first that the key up shows in an empty field.
  pub select_history-add :
      (query : Str) (h : QueryHistory)
      → (select_history recent up 0 [] (add recent query h)).1 ≡ some query
  unfolding select_history previous previous_from validate_cursor loaded queries_of add
  select_history-add query h =
      let before = queries_of recent h in
      let kept = without_found before (position (λ found. str_eq found query) before) in
      let queries = kept ++ query ∷ [] in
      ap (λ o. (found_at queries (of_parts (some queries) none (some [])) o).1)
        (search_back_all kept query)
      ∙ get_elem?-length kept query []
