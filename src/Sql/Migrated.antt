-- ===== src/Sql/Migrated.antt =====
-- crates/sql/src/migrations.rs: after a call of `migrate` that succeeds every migration is recorded.
use zaku.Prelude.{
  ◌≡◌, sym, ap, ◌∙◌, ℕ, Bool, false, List, [], ◌++◌, Result, ok, Result-cases, inl, inr, length,
  arith,
}
use mathlib.Core.Path.{subst}
use mathlib.Core.List.{append-nil}
use zaku.Text.{Str, text}
use zaku.Sql.{Sqlite, Error, returned, Row, savepoint, create_migration_table, foreign_key_check}
use zaku.Sql.Contract.{Transactions}
use zaku.Sql.Savepoints.{Settled}
use zaku.Sql.Migrations.{
  ◌>>=◌, ◌>>◌, when, run_migrations, run_and_check, migrate_body, body_operation, migrate,
  delete_orphaned_rows,
}
use zaku.Sql.Keeping.{Keeps, StatementsKeep, MigrationsKeep, finish-Keeps}
use zaku.Sql.Recorded.{Recorded, migrate-Settled}
use zaku.Sql.Journal.{Journal, rows_of, IsNumbered, run_migrations-Wrote, bind_rule}

module _ (s : Sqlite) (t : Transactions s) (j : Journal s t) (domain : Str)
    (allow : ℕ → Str → Str → Bool) where
  abbrev pub view : s.Conn → List Row
  view = rows_of s t j domain allow

  -- Rows were added, and there is one for every migration.
  abbrev pub Migrated : List Row → List Str → s.Conn → Type 0
  Migrated before migrations c =
      (added : List Row) × (view c ≡ before ++ added)
      × Recorded s domain allow (view c) 0 migrations

  abbrev pub MigratedIfOk : List Row → List Str → Result Error (Unit {0}) × s.Conn → Type 0
  MigratedIfOk before migrations q = q.0 ≡ ok tt → Migrated before migrations q.1

  module _ (keep : StatementsKeep s view) (migrations : List Str)
      (all_keep : MigrationsKeep s view migrations) where
    run_and_check-Migrated :
        (completed : List Row) (c : s.Conn)
        → completed ≡ view c
        → IsNumbered s t j domain allow (view c)
        → MigratedIfOk (view c) migrations (run_and_check s domain allow migrations completed c)
    unfolding run_and_check
    run_and_check-Migrated completed c found numbered =
        let run = run_migrations s domain allow completed 0 migrations false in
        let finish =
          λ (did : Bool). when did (do delete_orphaned_rows s; s.exec foreign_key_check) in
        bind_rule run finish c (MigratedIfOk (view c) migrations)
          (λ did ran _.
            let (added, now, recorded) =
              run_migrations-Wrote s t j domain allow completed 0 migrations false c [] all_keep
                (sym found ∙ sym (append-nil completed)) (omega (arith, ap length found)) numbered
                did ran in
            let same = finish-Keeps s view keep did (run c).1 in
            (added, same ∙ now, rw same recorded))
          (λ e h. cc)

    migrate_body-Migrated :
        (c : s.Conn)
        → IsNumbered s t j domain allow (view c)
        → MigratedIfOk (view c) migrations (migrate_body s domain allow migrations c)
    unfolding migrate_body
    migrate_body-Migrated c numbered =
        let P = MigratedIfOk (view c) migrations in
        let check = run_and_check s domain allow migrations in
        let from_rows = λ (completed : List Row). s.prepare_insert >> check completed in
        let c1 = (s.exec create_migration_table c).1 in
        let c2 = (s.select_completed domain c1).1 in
        let c3 = (s.prepare_insert c2).1 in
        let same1 : view c1 ≡ view c = keep.create_keeps c in
        let same3 : view c3 ≡ view c1 = keep.prepare_keeps c2 ∙ keep.select_keeps domain c1 in
        let same : view c3 ≡ view c = same3 ∙ same1 in
        bind_rule (s.exec create_migration_table) (λ _. s.select_completed domain >>= from_rows) c P
          (λ _ _.
            bind_rule (s.select_completed domain) from_rows c1 P
              (λ completed found.
                bind_rule s.prepare_insert (λ _. check completed) c2 P
                  (λ _ _.
                    subst (λ before. MigratedIfOk before migrations (check completed c3)) same
                      (run_and_check-Migrated completed c3
                        (j.select_ok domain c1 completed found ∙ sym same3)
                        (subst (IsNumbered s t j domain allow) (sym same) numbered)))
                  (λ e h. cc))
              (λ e h. cc))
          (λ e h. cc)

  pub savepoint-view : (name : Str) (c : s.Conn) → view (s.exec (savepoint name) c).1 ≡ view c
  savepoint-view name c = elim (Result-cases (s.exec (savepoint name) c).0) [
    | inl (e, failed) ↦ ap (j.rows domain) (t.savepoint_err name c e failed).0
    | inr (_, done) ↦ ap (j.rows domain) (t.savepoint_ok name c done).0
  ]

  -- Where `migrate` succeeds, it has only added rows to those of the domain, and every migration of
  -- the list has the row of its index, whose checksum is the migration's own or one that the caller
  -- accepts for it. The conditions: the steps of the rows that were there are below their number;
  -- the migrations, and the statements that are not about the rows of this domain, leave these rows
  -- and the open savepoints alone; no foreign key is one of the table of migrations, and deleting
  -- orphaned rows of other tables does not reach it.
  pub migrate-Recorded :
      (migrations : List Str) (c : s.Conn)
      → StatementsKeep s t.open_savepoints
      → ((row : Row) → Keeps t.open_savepoints (s.insert_completed row))
      → MigrationsKeep s t.open_savepoints migrations
      → StatementsKeep s view
      → MigrationsKeep s view migrations
      → IsNumbered s t j domain allow (view c)
      → (migrate s domain allow migrations c).0 ≡ returned (ok tt)
      → Migrated (view c) migrations (migrate s domain allow migrations c).1
  migrate-Recorded migrations c open_keep insert opens keep all_keep numbered h =
      let c1 = (s.exec (savepoint (text "migrating")) c).1 in
      let q = migrate s domain allow migrations c in
      let start : view c1 ≡ view c = savepoint-view (text "migrating") c in
      let worked = body_operation s domain allow migrations c1 in
      let settled =
        subst
          (λ end.
            Settled s t (text "migrating") worked.0 (t.database c) (t.database worked.1) end q.1)
          h (migrate-Settled s t domain allow migrations c open_keep insert opens) in
      let (added, now, recorded) =
        migrate_body-Migrated keep migrations all_keep c1
          (subst (IsNumbered s t j domain allow) (sym start) numbered) (cc settled.0) in
      let same = ap (j.rows domain) settled.1 in
      (added, same ∙ now ∙ ap (λ rows. rows ++ added) start, rw same recorded)
