-- ===== src/CommandPalette.antt =====
-- crates/command_palette/src/command_palette.rs: the history of queries, which the arrow keys step
-- through. The queries that the database holds when they are first asked for are an argument.
pub mod Search
pub mod Valid
pub mod Keys
mod Tests
use zaku.Prelude.{
  ℕ, zero, suc, ◌+◌, ◌-◌, Bool, true, false, ◌||◌, Option, none, some, List, [], ◌∷◌, ◌++◌, length,
  get_elem?, erase_idx, position, ◌==◌, if◌then◌else◌,
}
use zaku.Text.{Str, str_eq, strip_prefix}

pub record QueryHistory : Type 0 where
  pub history : Option (List Str)
  pub cursor : Option ℕ
  pub prefix : Option Str

-- `str::starts_with`
abbrev pub has_prefix : Str → Str → Bool
has_prefix s prefix = elim (strip_prefix prefix s) [ some rest ↦ true | none ↦ false ]

abbrev pub unwrap_or {ℓ} : {A : Type ℓ} → Option A → A → A
unwrap_or none b = b
unwrap_or (some a) b = a

abbrev pub matches : Str → Option Str → Bool
matches prefix none = false
matches prefix (some query) = has_prefix query prefix

abbrev pub is_query : Str → Option Str → Bool
is_query query none = false
is_query query (some found) = str_eq found query

-- `VecDeque::remove` of what `position` found.
abbrev pub without_found : List Str → Option ℕ → List Str
without_found queries none = queries
without_found queries (some i) = erase_idx queries i

-- The loop of `previous`, over the indices below one, from the last.
unfoldable pub search_back : Str → List Str → ℕ → Option ℕ
search_back prefix queries zero = none
search_back prefix queries (suc index) =
    let rest = search_back prefix queries index in
    if matches prefix (get_elem? queries index) then some index else rest

-- The loop of `next`, over a number of indices from one on.
unfoldable pub search_forward : Str → List Str → ℕ → ℕ → Option ℕ
search_forward prefix queries index zero = none
search_forward prefix queries index (suc count) =
    let rest = search_forward prefix queries (index + 1) count in
    if matches prefix (get_elem? queries index) then some index else rest

-- The query at the index that a loop found, which becomes the cursor.
abbrev pub found_at : List Str → QueryHistory → Option ℕ → QueryHistory × Option Str
found_at queries h none = (h, none)
found_at queries h (some index) = (record h { cursor = some index }, get_elem? queries index)

pub data Direction : Type 0 where
  up down : Direction

-- The queries of the database, where they can be read.
module _ (recent : List Str) where
  unfoldable pub queries_of : QueryHistory → List Str
  queries_of h = unwrap_or h.history recent

  -- `history`, which keeps the queries from then on.
  unfoldable pub loaded : QueryHistory → QueryHistory
  unfolding queries_of
  loaded h = record h { history = some (queries_of h) }

  unfoldable pub add : Str → QueryHistory → QueryHistory
  unfolding queries_of
  add query h =
      let queries = queries_of h in
      record {
        history =
            some (
              without_found queries (position (λ found. str_eq found query) queries) ++ query ∷ []);
        cursor = none;
        prefix = none;
      }

  unfoldable pub reset_cursor : QueryHistory → QueryHistory
  reset_cursor h = record h { cursor = none; prefix = none }

  unfoldable pub validate_cursor : Str → QueryHistory → QueryHistory
  unfolding queries_of loaded reset_cursor
  validate_cursor current_query h = elim h.cursor [
    | none ↦ h
    | some index ↦
        if is_query current_query (get_elem? (queries_of h) index)
        then loaded h
        else reset_cursor (loaded h)
  ]

  abbrev pub with_prefix : Str → QueryHistory → QueryHistory
  with_prefix current_query h = elim h.cursor [
    | none ↦ record h { prefix = some current_query }
    | some index ↦ h
  ]

  -- `previous` behind `validate_cursor`.
  unfoldable pub previous_from : Str → QueryHistory → QueryHistory × Option Str
  unfolding queries_of loaded search_back
  previous_from current_query valid =
      let based = loaded (with_prefix current_query valid) in
      let queries = queries_of based in
      let start_index = unwrap_or based.cursor (length queries) in
      found_at queries based (search_back (unwrap_or based.prefix []) queries start_index)

  unfoldable pub previous : Str → QueryHistory → QueryHistory × Option Str
  unfolding validate_cursor previous_from
  previous current_query h = previous_from current_query (validate_cursor current_query h)

  -- `next` behind `validate_cursor`.
  unfoldable pub next_from : QueryHistory → QueryHistory × Option Str
  unfolding queries_of loaded search_forward
  next_from valid = elim valid.cursor [
    | none ↦ (valid, none)
    | some selected ↦
        let queries = queries_of valid in
        found_at queries (loaded valid) (
          search_forward (unwrap_or valid.prefix []) queries (selected + 1)
            (length queries - (selected + 1)))
  ]

  unfoldable pub next : Str → QueryHistory → QueryHistory × Option Str
  unfolding validate_cursor next_from
  next current_query h = next_from (validate_cursor current_query h)

  abbrev pub is_navigating : QueryHistory → Bool
  is_navigating h = elim h.cursor [ none ↦ false | some index ↦ true ]

  -- The end of the key down: past the last query the text that was typed comes back.
  abbrev pub or_typed : QueryHistory × Option Str → QueryHistory × Option Str
  or_typed (h, some query) = (h, some query)
  or_typed (h, none) = (reset_cursor h, some (unwrap_or h.prefix []))

  unfoldable pub select_history : Direction → ℕ → Str → QueryHistory → QueryHistory × Option Str
  unfolding previous next reset_cursor
  select_history up selected_index query h =
      let before = previous query h in
      if selected_index == 0 || is_navigating h then before else (h, none)
  select_history down selected_index query h =
      let after = or_typed (next query h) in if is_navigating h then after else (h, none)
