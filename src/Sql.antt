-- ===== src/Sql.antt =====
-- crates/sql/src/savepoint.rs: what runs inside a savepoint. SQLite and the statements' own code are
-- a parameter: the statements that the crate prints are the constructors of a data type.
pub mod Contract
pub mod Savepoints
pub mod Rollback
pub mod Keeping
pub mod Recorded
pub mod Journal
pub mod Migrated
pub mod Again
pub mod Newlines
mod Tests
pub mod Migrations
use zaku.Prelude.{ℕ, Bool, true, false, Option, none, some, List, Result, ok, err, if◌then◌else◌}
use zaku.Text.{Str}

-- A column of a table that points to a column of another.
pub record ForeignKey : Type 0 where
  pub child_table : Str
  pub child_key : Str
  pub parent_table : Str
  pub parent_key : Str

-- The statements that the crate prints and hands to `Connection::exec`.
pub data Sql : Type 0 where
  savepoint release rollback_and_release : Str → Sql
  create_migration_table foreign_key_check : Sql
  delete_orphans : ForeignKey → Sql

-- `anyhow::Error`, with the report of a changed migration kept apart.
pub data Error : Type 0 where
  statement_failed : Str → Error
  interior_nul : Error
  migration_changed : Str → ℕ → Str → Str → Error

-- A call on the connection: its result, and the connection after it.
abbrev pub Action : Type 0 → Type 0 → Type 0
Action C A = C → Result Error A × C

-- A row of the table of migrations: domain, step and checksum.
abbrev pub Row : Type 0
Row = Str × ℕ × List ℕ

-- SQLite, and the crates `sha2` and `hex`.
pub record Sqlite : Type 1 where
  pub Conn : Type 0
  pub exec : Sql → Action Conn (Unit {0})
  pub select_completed : Str → Action Conn (List Row)
  pub prepare_insert : Action Conn (Unit {0})
  pub insert_completed : Row → Action Conn (Unit {0})
  pub sqlite3_exec : Str → Action Conn (Unit {0})
  pub select_foreign_keys : Action Conn (List ForeignKey)
  pub digest : Str → List ℕ
  pub encode : List ℕ → Str

-- How a call of the caller's closure ends.
pub data Outcome (R : Type 0) : Type 0 where
  returned : Result Error R → Outcome R
  panicked : Outcome R

abbrev pub Operation : Type 0 → Type 0 → Type 0
Operation C R = C → Outcome R × C

pub record SavepointGuard : Type 0 where
  pub name : Str
  pub finished : Bool

module _ (s : Sqlite) where
  open s use {Conn, exec}

  abbrev pub created : Str → Result Error (Unit {0}) × Conn → Result Error SavepointGuard × Conn
  created name (ok _, c) = (ok (record { name = name; finished = false }), c)
  created name (err e, c) = (err e, c)

  unfoldable pub guard_new : Str → Action Conn SavepointGuard
  guard_new name c = created name (exec (savepoint name) c)

  -- The last lines of `release` and of `rollback_and_release`.
  abbrev pub finished_by :
      SavepointGuard
      → Result Error (Unit {0}) × Conn
      → Result Error (Unit {0}) × SavepointGuard × Conn
  finished_by guard (ok _, c) = (ok tt, record guard { finished = true }, c)
  finished_by guard (err e, c) = (err e, guard, c)

  unfoldable pub guard_release :
      SavepointGuard → Conn → Result Error (Unit {0}) × SavepointGuard × Conn
  guard_release guard c =
      if guard.finished then (ok tt, guard, c) else finished_by guard (exec (release guard.name) c)

  unfoldable pub guard_rollback_and_release :
      SavepointGuard → Conn → Result Error (Unit {0}) × SavepointGuard × Conn
  guard_rollback_and_release guard c =
      if guard.finished
      then (ok tt, guard, c)
      else finished_by guard (exec (rollback_and_release guard.name) c)

  unfoldable pub guard_finish :
      SavepointGuard → Conn → Result Error (Unit {0}) × SavepointGuard × Conn
  unfolding guard_rollback_and_release
  guard_finish guard c =
      if guard.finished then (ok tt, guard, c) else guard_rollback_and_release guard c

  -- `Drop`: an error of `finish` is dropped.
  unfoldable pub guard_drop : SavepointGuard → Conn → Conn
  unfolding guard_finish
  guard_drop guard c = (guard_finish guard c).2

  -- The end of `with_savepoint`: an error of the guard's call comes first, and the guard is dropped.
  abbrev pub dropped :
      {R : Type 0}
      → Result Error R
      → Result Error (Unit {0}) × SavepointGuard × Conn
      → Outcome R × Conn
  unfolding guard_drop
  dropped result (ok _, guard, c) = (returned result, guard_drop guard c)
  dropped result (err e, guard, c) = (returned (err e), guard_drop guard c)

  unfoldable pub close_guard : {R : Type 0} → SavepointGuard → Outcome R × Conn → Outcome R × Conn
  unfolding dropped guard_release guard_rollback_and_release guard_drop
  close_guard guard (returned (ok value), c) = dropped (ok value) (guard_release guard c)
  close_guard guard (returned (err e), c) = dropped (err e) (guard_rollback_and_release guard c)
  close_guard guard (panicked, c) = (panicked, guard_drop guard c)

  abbrev pub opened :
      {R : Type 0}
      → (SavepointGuard → Outcome R × Conn → Outcome R × Conn)
      → Operation Conn R
      → Result Error SavepointGuard × Conn
      → Outcome R × Conn
  opened close_by operation (ok guard, c) = close_by guard (operation c)
  opened close_by operation (err e, c) = (returned (err e), c)

  unfoldable pub with_savepoint : {R : Type 0} → Str → Operation Conn R → Operation Conn R
  unfolding guard_new close_guard
  with_savepoint name operation c = opened close_guard operation (guard_new name c)

  unfoldable pub close_or_rollback :
      {R : Type 0} → SavepointGuard → Outcome (Option R) × Conn → Outcome (Option R) × Conn
  unfolding dropped guard_release guard_rollback_and_release guard_drop
  close_or_rollback guard (returned (ok (some value)), c) =
      dropped (ok (some value)) (guard_release guard c)
  close_or_rollback guard (returned (ok none), c) =
      dropped (ok none) (guard_rollback_and_release guard c)
  close_or_rollback guard (returned (err e), c) =
      dropped (err e) (guard_rollback_and_release guard c)
  close_or_rollback guard (panicked, c) = (panicked, guard_drop guard c)

  unfoldable pub with_savepoint_rollback :
      {R : Type 0} → Str → Operation Conn (Option R) → Operation Conn (Option R)
  unfolding guard_new close_or_rollback
  with_savepoint_rollback name operation c = opened close_or_rollback operation (guard_new name c)
