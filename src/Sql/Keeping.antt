-- ===== src/Sql/Keeping.antt =====
-- crates/sql/src/migrations.rs: what every call of a migration's closure leaves as it was, given that
-- SQLite's statements do.
use zaku.Prelude.{
  ◌≡◌, refl, ◌∙◌, ℕ, suc, Bool, true, false, List, [], ◌∷◌, Option-cases, Result-cases, if-both,
  if◌then◌else◌, inl, inr, get_elem?, All, ok,
}
use zaku.Text.{Str, contains, eq_ignore_ascii_case, text}
use zaku.Sql.{
  Sqlite, Action, Row, ForeignKey, create_migration_table, foreign_key_check, delete_orphans,
}
use zaku.Sql.Migrations.{
  ◌>>=◌, ◌>>◌, when, eager_exec, prepare_migration, delete_each, delete_orphaned_rows, accepts,
  changed, raise, run_migrations, run_and_check, migrate_body,
}

module _ {C X : Type 0} (view : C → X) where
  -- A call leaves what the view shows of the connection.
  abbrev pub Keeps : {A : Type 0} → Action C A → Type 0
  Keeps call = (c : C) → view (call c).1 ≡ view c

  pub Keeps-bind :
      {A B : Type 0} (m : Action C A) (f : A → Action C B)
      → Keeps m
      → ((a : A) → Keeps (f a))
      → Keeps (m >>= f)
  Keeps-bind {A} {B} m f first rest c = elim (Result-cases (m c).0) [
    | inl (e, failed) ↦ rw (failed, ◌>>=◌) (first c)
    | inr (a, done) ↦ rw (done, ◌>>=◌) (rest a (m c).1 ∙ first c)
  ]

  Keeps-if :
      {A : Type 0} (b : Bool) (m n : Action C A) → Keeps m → Keeps n → Keeps (if b then m else n)
  Keeps-if {A} b m n h k = if-both (Keeps {A = A}) b h k

-- A foreign key of another table than that of the migrations.
abbrev pub NotOfMigrations : ForeignKey → Type 0
NotOfMigrations key = eq_ignore_ascii_case key.child_table (text "migration") ≡ false

-- The calls of `migrate` on SQLite, but the runs of the migrations and their records, keep a view:
-- orphaned rows are deleted from other tables than that of the migrations, since `migrate` makes it
-- without a foreign key, and no foreign key that SQLite lists is one of it. No trigger of another
-- table writes into it.
pub record StatementsKeep (s : Sqlite) {X : Type 0} (view : s.Conn → X) : Type 0 where
  pub create_keeps : Keeps view (s.exec create_migration_table)
  pub check_keeps : Keeps view (s.exec foreign_key_check)
  pub delete_keeps :
      (key : ForeignKey) → NotOfMigrations key → Keeps view (s.exec (delete_orphans key))
  pub other_tables :
      (c : s.Conn) (keys : List ForeignKey)
      → (s.select_foreign_keys c).0 ≡ ok keys
      → All NotOfMigrations keys
  pub keys_keep : Keeps view s.select_foreign_keys
  pub select_keeps : (domain : Str) → Keeps view (s.select_completed domain)
  pub prepare_keeps : Keeps view s.prepare_insert

module _ (s : Sqlite) {X : Type 0} (view : s.Conn → X) where
  -- A migration of the list, as it is run, keeps a view.
  abbrev pub MigrationsKeep : List Str → Type 0
  MigrationsKeep = All (λ migration. Keeps view (s.sqlite3_exec (prepare_migration s migration).0))

  pub eager_exec-Keeps :
      (sql : Str) → Keeps view (s.sqlite3_exec sql) → Keeps view (eager_exec s sql)
  unfolding eager_exec
  eager_exec-Keeps sql h = Keeps-if view (contains 0 sql) _ _ (λ c. refl) h

  delete_each-Keeps :
      StatementsKeep s view
      → (keys : List ForeignKey) → All NotOfMigrations keys
      → Keeps view (delete_each s keys)
  unfolding delete_each
  delete_each-Keeps k [] h = λ c. refl
  delete_each-Keeps k (key ∷ keys) h =
      Keeps-bind view (s.exec (delete_orphans key)) (λ _. delete_each s keys)
        (k.delete_keeps key h.0) (λ _. delete_each-Keeps k keys h.1)

  delete_orphaned_rows-Keeps : StatementsKeep s view → Keeps view (delete_orphaned_rows s)
  unfolding delete_orphaned_rows
  delete_orphaned_rows-Keeps k c = elim (Result-cases (s.select_foreign_keys c).0) [
    | inl (e, failed) ↦ rw (failed, ◌>>=◌) (k.keys_keep c)
    | inr (keys, done) ↦
        rw (done, ◌>>=◌)
          (delete_each-Keeps k keys (k.other_tables c keys done) (s.select_foreign_keys c).1
            ∙ k.keys_keep c)
  ]

  pub finish-Keeps :
      StatementsKeep s view
      → (did_migrate : Bool)
      → Keeps view (when did_migrate (do delete_orphaned_rows s; s.exec foreign_key_check))
  finish-Keeps k true =
      Keeps-bind view (delete_orphaned_rows s) (λ _. s.exec foreign_key_check)
        (delete_orphaned_rows-Keeps k) (λ _. k.check_keeps)
  finish-Keeps k false = λ c. refl

  module _ (domain : Str) (allow : ℕ → Str → Str → Bool) where
    run_migrations-Keeps :
        ((row : Row) → Keeps view (s.insert_completed row))
        → (completed : List Row) (index : ℕ) (migrations : List Str) (did_migrate : Bool)
        → MigrationsKeep migrations
        → Keeps view (run_migrations s domain allow completed index migrations did_migrate)
    unfolding run_migrations
    run_migrations-Keeps insert completed index [] did_migrate h = λ c. refl
    run_migrations-Keeps insert completed index (m ∷ ms) did_migrate h = λ c.
        elim (Option-cases (get_elem? completed index)) [
          | inl fresh ↦
              rw (fresh, run_migrations)
                (Keeps-bind view (eager_exec s (prepare_migration s m).0)
                  (λ _.
                    s.insert_completed (domain, index, (prepare_migration s m).1)
                    >> run_migrations s domain allow completed (suc index) ms true)
                  (eager_exec-Keeps (prepare_migration s m).0 h.0)
                  (λ _.
                    Keeps-bind view (s.insert_completed (domain, index, (prepare_migration s m).1))
                      (λ _. run_migrations s domain allow completed (suc index) ms true)
                      (insert (domain, index, (prepare_migration s m).1))
                      (λ _. run_migrations-Keeps insert completed (suc index) ms true h.1))
                  c)
          | inr (row, stored) ↦
              rw (stored, run_migrations)
                (Keeps-if view (accepts s domain allow index row.2 (prepare_migration s m).1)
                  (run_migrations s domain allow completed (suc index) ms did_migrate)
                  (raise (changed s domain allow index row.2 (prepare_migration s m).1))
                  (run_migrations-Keeps insert completed (suc index) ms did_migrate h.1) (λ c. refl)
                  c)
        ]

    pub migrate_body-Keeps :
        StatementsKeep s view
        → ((row : Row) → Keeps view (s.insert_completed row))
        → (migrations : List Str) → MigrationsKeep migrations
        → Keeps view (migrate_body s domain allow migrations)
    unfolding migrate_body run_and_check
    migrate_body-Keeps k insert migrations h =
        let check = run_and_check s domain allow migrations in
        let from_rows = λ (completed : List Row). s.prepare_insert >> check completed in
        Keeps-bind view (s.exec create_migration_table)
          (λ _. s.select_completed domain >>= from_rows) k.create_keeps
          λ _.
            Keeps-bind view (s.select_completed domain) from_rows (k.select_keeps domain)
              λ completed.
                Keeps-bind view s.prepare_insert (λ _. check completed) k.prepare_keeps
                  λ _.
                    Keeps-bind view (run_migrations s domain allow completed 0 migrations false)
                      (λ did. when did (do delete_orphaned_rows s; s.exec foreign_key_check))
                      (run_migrations-Keeps insert completed 0 migrations false h) (finish-Keeps k)
