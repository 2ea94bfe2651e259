-- ===== src/Sql/Recorded.antt =====
-- crates/sql/src/migrations.rs: a call of `migrate` takes effect whole or not at all; after one that
-- succeeds every migration is recorded, and the next call runs none.
use zaku.Prelude.{◌≡◌, refl, ℕ, suc, Bool, true, some, List, [], ◌∷◌, ok, get_elem?}
use zaku.Text.{Str, text}
use zaku.Sql.{Sqlite, Row}
use zaku.Sql.Contract.{Transactions}
use zaku.Sql.Savepoints.{Settled, inside, with_savepoint-Settled}
use zaku.Sql.Migrations.{accepts, prepare_migration, run_migrations, body_operation, migrate}
use zaku.Sql.Keeping.{Keeps, StatementsKeep, MigrationsKeep, migrate_body-Keeps}

module _ (s : Sqlite) (domain : Str) (allow : ℕ → Str → Str → Bool) where
  -- Each migration from number `index` on has a row, whose checksum is the migration's or one that
  -- the caller accepts in its place.
  abbrev pub Recorded : List Row → ℕ → List Str → Type 0
  Recorded rows index [] = Unit
  Recorded rows index (m ∷ ms) =
      ((row : Row) × (get_elem? rows index ≡ some row)
        × (accepts s domain allow index row.2 (prepare_migration s m).1 ≡ true))
      × Recorded rows (suc index) ms

  -- The loop runs nothing where every migration is recorded.
  pub run_migrations-again :
      (rows : List Row) (index : ℕ) (migrations : List Str) (did_migrate : Bool) (c : s.Conn)
      → Recorded rows index migrations
      → run_migrations s domain allow rows index migrations did_migrate c ≡ (ok did_migrate, c)
  unfolding run_migrations
  run_migrations-again rows index [] did_migrate c h = refl
  run_migrations-again rows index (m ∷ ms) did_migrate c ((row, stored, accepted), rest) =
      rw (stored, run_migrations, accepted)
        (run_migrations-again rows (suc index) ms did_migrate c rest)

module _ (s : Sqlite) (t : Transactions s) where
  -- Where SQLite's statements for the table of migrations, and the migrations of the list, leave the
  -- open savepoints alone, `migrate` takes effect whole or not at all: if it returns an error (a
  -- changed migration, a failed statement), the database is as before the call, unless the last
  -- attempt to roll back failed.
  pub migrate-Settled :
      (domain : Str) (allow : ℕ → Str → Str → Bool) (migrations : List Str) (c : s.Conn)
      → StatementsKeep s t.open_savepoints
      → ((row : Row) → Keeps t.open_savepoints (s.insert_completed row))
      → MigrationsKeep s t.open_savepoints migrations
      → let q = migrate s domain allow migrations c in
        let worked = inside s t (text "migrating") (body_operation s domain allow migrations) c in
        Settled s t (text "migrating") worked.0 (t.database c) (t.database worked.1) q.0 q.1
  unfolding migrate
  migrate-Settled domain allow migrations c k insert h =
      with_savepoint-Settled s t (text "migrating") (body_operation s domain allow migrations) c
        (migrate_body-Keeps s t.open_savepoints domain allow k insert migrations h)
