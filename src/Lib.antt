-- ===== src/Lib.antt =====
-- Zaku, an API client with a text editor and a workspace (the crates under crates/).
--
-- Parts and how they are modelled.
-- - crates/path/src/rel_path.rs and path.rs: `RelPath` holds the type and its operations by their
--   names in the source (`new`, `unix`, `components`, `strip_prefix`, `join`, `ancestors`, `pop`,
--   `push`), `FilePath` the two path styles and `is_absolute`. A path is the list of its code
--   points, and the input of `new` is valid UTF-8. The children of `RelPath` hold the proofs: the
--   components of a path (`Components`), the buffer of the normalizing loop as a stack (`Stack`,
--   `Normalize`), the stripping of the ends (`Trim`), the constructors (`New`, `Unix`), the
--   accessors (`Access`) and the prefixes (`Prefix`, `Join`).
-- - crates/path/src/path.rs has the order of names and paths: `NaturalSort` holds `natural_sort`, with
--   `Digits` and `Values` on runs of digits, `Keys` and `Total` on the order as one of keys, and
--   `PathOrder` holds `compare_rel_paths_by`, with its proofs in `Reversed` and `Ties`. The tables of
--   Unicode (`is_lowercase`, `is_uppercase`, `to_lowercase`) are a parameter, `Unicode`.
-- - crates/workspace/src/pane.rs: `Pane` holds the tabs of a pane as a record with the fields that
--   tabs depend on, `Pane.Add`, `Pane.Close` and `Pane.Open` the operations `add_item`,
--   `remove_item`, `close_current_preview_item` and `open_item`, `Pane.Save` and `Pane.CloseItems`
--   the operations `save_item` and `close_items`, whose prompts and saves are answered by arguments,
--   while the tabs stay as they are. `Saving`, `Kept`, `Left` and `Unsaved` have the proofs about
--   closing, `Unique` and `Duplicates` those about tabs of one item. Items are records of what their
--   handles answer (crates/workspace/src/item.rs); calls of items, focus changes, scrolling and
--   events are a list of effects. What the window answers about the focus is an argument.
-- - crates/git/src/status.rs: `Git` holds the file statuses and the tests of them, `Git.Summary`
--   the counts, `Git.Report` the parser of a whole report (`parse_entry`, the sort and the removal
--   of duplicates, `from_str`), which stands on `RelPath.unix` and on the order of paths. `Git.Bytes`
--   has the letters of git and `Git.Decode` what two bytes are read as, `Git.Counting` the proofs
--   about summaries, `Git.Sorted`, `Git.Dedup` and `Git.Print` those about reports.
-- - crates/workspace/src/dock.rs: `Dock` holds the panels of a dock as records of what their handles
--   answer, and the operations `add_panel`, `activate_panel`, `set_open`, `restore_state`; from
--   crates/workspace/src/workspace.rs it has the part of `toggle_dock` that changes the dock. The
--   sizes of panels are left out.
-- - crates/logger/src/env_config.rs: `EnvConfig` reads the log filter of the environment.
-- - crates/logger/src/filter.rs: `LogFilter` holds the map of scopes and modules, the look-up in it
--   (`is_enabled`), the greatest enabled level and `is_scope_enabled`. The global atomics are the
--   fields of a state. How the map is built from settings is left out.
-- - crates/updater/src/updater.rs: `Updater` holds the status of the updater and the parts of the
--   task of `poll`, from one wait to the next; the answers that it waits for are arguments.
--   `Updater.Step` is the relation of all that can happen, in any order, `Updater.Invariant`,
--   `Updater.Tasks` and `Updater.Safety` have the invariant, `Updater.Progress` the end of the
--   task, `Updater.Success` an update with good answers and `Updater.Failure` what a failed check
--   leaves. The order of versions is a parameter that `AppVersion` instantiates.
-- - crates/metadata/src/metadata.rs: `AppVersion` holds a version and its order, `AppVersion.Format`
--   `from_str` and `display`. The semver package and the dates of the jiff package are parameters;
--   `AppVersion.Documented` says what the code relies on of them, `AppVersion.Numbers` and
--   `AppVersion.RoundTrip` have the proofs.
-- - crates/util/src/disambiguate.rs: `Disambiguate` holds the rounds of
--   `compute_disambiguation_details` over a list of entries.
-- - crates/editor/src/selections_collection.rs: `Selections` holds the selections of offsets, what
--   `select` merges and what `all` makes of the pending selection, `Selections.Collection` the
--   collection and its operations (`new_selection_id`, `set_pending`, `select_ranges`,
--   `change_with`). `Selections.Disjoint` says what it is to be apart; `Merged`, `Pending`,
--   `Numbers` and `Ranges` have the proofs. Anchors and the display map are parameters.
-- - crates/command_palette/src/command_palette.rs: `CommandPalette` holds the history of queries and
--   `select_history`, with the loops in `Search`, the place of the cursor in `Valid` and the keys up
--   and down in `Keys`.
-- - crates/picker/src/picker.rs: `Picker` holds `set_selected_index` and the keys that call it, with
--   the loop over the matches in `Loop` and the keys in `Moves`.
-- - crates/sql/src/savepoint.rs and migrations.rs: `Sql` holds the savepoint guard with its drop and
--   the calls that run an operation inside a savepoint, `Sql.Migrations` the loop of `migrate` over
--   a connection that every call hands on. SQLite and the hashes are a parameter, `Sqlite`;
--   `Sql.Contract` and `Sql.Journal` say what the code relies on of savepoints and of the table of
--   migrations. `Sql.Savepoints` and `Sql.Rollback` have the proofs about the guard, `Sql.Keeping`,
--   `Sql.Recorded`, `Sql.Migrated` and `Sql.Again` those about `migrate`, `Sql.Newlines` those about
--   line ends. The caller's closure that accepts changed migrations is its answers during one call.
-- - `Text` has the string operations of the standard library, `Order` total orders and the order of
--   sequences, `Prelude` numbers, lists and results.
--
-- Loops. The iterators and the stripping loops of a path take its length as fuel, and so does
-- `trim_end_matches` in `EnvConfig`: every round takes at least one character, so the fuel is
-- enough. The loop of `natural_sort` takes the length of both names, and each round takes a character of
-- either. The rounds of `compute_disambiguation_details` take a fuel that their end is stated with.
-- The loop of `set_selected_index` in a picker takes the number of matches, which is proved to be
-- enough. The digits of a number take one more than the number. All other loops are structural
-- recursion on a list or on a count.
--
-- Numbers. Indices and counts are unbounded natural numbers; `usize` is left out, since no count here
-- exceeds the number of tabs, panels, statuses or characters. Numbers in names that do not fit `u128`
-- are compared as texts, as in the source; a version whose numbers do not fit `u64` is not read.
--
-- Left out: rendering, what else may happen to a pane while a prompt of `close_items` is open, and
-- everything that only passes calls on to the user interface library.
pub mod Prelude
pub mod Order
pub mod Text
pub mod FilePath
pub mod NaturalSort
pub mod RelPath
pub mod PathOrder
pub mod Git
pub mod Pane
pub mod Dock
pub mod EnvConfig
pub mod LogFilter
pub mod AppVersion
pub mod Updater
pub mod Disambiguate
pub mod Sql
pub mod Selections
pub mod CommandPalette
pub mod Picker
