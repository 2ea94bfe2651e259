-- ===== src/CommandPalette/Valid.antt =====
-- crates/command_palette/src/command_palette.rs: the cursor of the history stands on a query that
-- starts with what was typed.
use zaku.Prelude.{ℕ, Option, none, some, List, []}
use zaku.Text.{Str}
use zaku.CommandPalette.{QueryHistory, unwrap_or, queries_of}
use zaku.CommandPalette.Search.{Matches}

-- The cursor, if there is one, stands in the history, on a query that starts with the prefix.
abbrev pub StandsOn : List Str → Str → Option ℕ → Type 0
StandsOn queries prefix none = Unit
StandsOn queries prefix (some index) = Matches prefix queries index

abbrev pub of_parts : Option (List Str) → Option ℕ → Option Str → QueryHistory
of_parts history cursor prefix = record { history = history; cursor = cursor; prefix = prefix }

module _ (recent : List Str) where
  abbrev pub IsValid : QueryHistory → Type 0
  IsValid h = StandsOn (queries_of recent h) (unwrap_or h.prefix []) h.cursor
