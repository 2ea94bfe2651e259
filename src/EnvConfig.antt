-- ===== src/EnvConfig.antt =====
-- crates/logger/src/env_config.rs: the levels and directives of the log filter that the environment
-- sets.
pub mod Parsing
mod Tests
use zaku.Prelude.{
  ℕ, zero, suc, ◌+◌, ◌≤◌, Bool, true, false, ◌&&◌, ◌||◌, Option, none, some, List, [], ◌∷◌, ◌++◌,
  map, any, length, ltb, leb, ◌==◌, if◌then◌else◌, Result, ok, err, ◌>>=◌,
}
use mathlib.Core.List.{reverse}
use zaku.Text.Trim.{trim}
use zaku.Text.{eq_ignore_ascii_case, Str, text, str_eq, contains, split, split_once, strip_prefix}

-- `log::LevelFilter`
pub data LevelFilter : Type 0 where
  level_off level_error level_warn level_info level_debug level_trace : LevelFilter

pub record EnvFilter : Type 0 where
  pub level_global : Option LevelFilter
  pub directive_names : List Str
  pub directive_levels : List LevelFilter

pub data FilterError : Type 0 where
  invalid_directive invalid_level : Str → FilterError
  multiple_max_levels : FilterError

-- `str::trim_end_matches` by a text, on the reversed text; every round takes a character at least,
-- so the length is fuel enough.
abbrev pub strip_all : ℕ → Str → Str → Str
strip_all zero prefix s = s
strip_all (suc fuel) prefix s = elim (strip_prefix prefix s) [
  | none ↦ s
  | some rest ↦ strip_all fuel prefix rest
]

unfoldable pub trim_end_matches : Str → Str → Str
trim_end_matches suffix s = reverse (strip_all (length s) (reverse suffix) (reverse s))

abbrev pub clean : Str → Str
clean name = trim_end_matches (text ".rs") (trim name)

unfoldable pub parse_level : Str → Result FilterError LevelFilter
parse_level level =
    if eq_ignore_ascii_case level (text "TRACE")
    then ok level_trace
    else if eq_ignore_ascii_case level (text "DEBUG")
    then ok level_debug
    else if eq_ignore_ascii_case level (text "INFO")
    then ok level_info
    else if eq_ignore_ascii_case level (text "WARN")
    then ok level_warn
    else if eq_ignore_ascii_case level (text "ERROR")
    then ok level_error
    else if eq_ignore_ascii_case level (text "OFF") || eq_ignore_ascii_case level (text "NONE")
    then ok level_off
    else err (invalid_level level)

abbrev pub push_directive : EnvFilter → Str → LevelFilter → EnvFilter
push_directive filter name level = record filter {
  directive_names = filter.directive_names ++ name ∷ [];
  directive_levels = filter.directive_levels ++ level ∷ [];
}

abbrev pub set_global : EnvFilter → LevelFilter → Result FilterError EnvFilter
set_global filter level = elim filter.level_global [
  | none ↦ ok (record filter { level_global = some level })
  | some other ↦ err multiple_max_levels
]

-- One round of the loop of `parse`. `LevelFilter::max()` is the level trace.
unfoldable pub parse_directive : EnvFilter → Str → Result FilterError EnvFilter
parse_directive filter directive = elim (split_once b'=' directive) [
  | some (name, level_text) ↦
      if contains b'=' level_text
      then err (invalid_directive directive)
      else parse_level (trim level_text) >>= λ level. ok (push_directive filter (clean name) level)
  | none ↦ elim (parse_level (trim directive)) [
    | err e ↦ ok (push_directive filter (clean directive) level_trace)
    | ok level ↦ set_global filter level
  ]
]

unfoldable pub parse_directives : EnvFilter → List Str → Result FilterError EnvFilter
parse_directives filter [] = ok filter
parse_directives filter (directive ∷ rest) =
    parse_directive filter directive >>= λ next_filter. parse_directives next_filter rest

abbrev pub no_filter : EnvFilter
no_filter = record { level_global = none; directive_names = []; directive_levels = [] }

unfoldable pub parse : Str → Result FilterError EnvFilter
parse filter = parse_directives no_filter (split b',' filter)
