-- ===== src/Sql/Again.antt =====
-- crates/sql/src/migrations.rs: the call of `migrate` after one that succeeded runs no migration.
use zaku.Prelude.{
  ◌≡◌, ap, refl, ◌∙◌, ℕ, suc, Bool, true, false, ◌||◌, List, [], ◌∷◌, Result, ok, err, Result-cases,
  inl, inr,
}
use zaku.Text.{Str, str_eq, text}
use zaku.Sql.{
  Sqlite, Error, Action, returned, Row, savepoint, create_migration_table, foreign_key_check,
  Outcome, Operation, SavepointGuard, created, opened, guard_new, close_guard, with_savepoint,
}
use zaku.Sql.Contract.{Transactions}
use zaku.Sql.Migrations.{
  ◌>>=◌, ◌>>◌, pure, accepts, prepare_migration, when, run_migrations, run_and_check, migrate_body,
  body_operation, migrate, delete_orphaned_rows,
}
use zaku.Sql.Keeping.{Keeps, StatementsKeep, MigrationsKeep}
use zaku.Sql.Recorded.{Recorded, run_migrations-again}
use zaku.Sql.Journal.{Journal, IsNumbered}
use zaku.Sql.Migrated.{view, savepoint-view, migrate-Recorded}

bind_of_ok :
    {C A B : Type 0} (m : Action C A) (f : A → Action C B) (c : C) {a : A} {c' : C}
    → m c ≡ (ok a, c')
    → (m >>= f) c ≡ f a c'
bind_of_ok m f c h = ap (λ p. elim p.0 [ ok a ↦ f a p.1 | err e ↦ (err e, p.1) ]) h

bind_same :
    {C A B : Type 0} (m : Action C A) (f g : A → Action C B) (c : C)
    → ((a : A) → (m c).0 ≡ ok a → f a (m c).1 ≡ g a (m c).1)
    → (m >>= f) c ≡ (m >>= g) c
bind_same m f g c h = elim (Result-cases (m c).0) [
  | inl (e, failed) ↦ rw (failed, ◌>>=◌) refl
  | inr (a, done) ↦ rw (done, ◌>>=◌) (h a done)
]

or_mono : (a : Bool) {b c : Bool} → (b ≡ true → c ≡ true) → (a || b) ≡ true → (a || c) ≡ true
or_mono true h e = refl
or_mono false h e = h e

module _ (s : Sqlite) where
  opened-same :
      {R : Type 0} (close_by : SavepointGuard → Outcome R × s.Conn → Outcome R × s.Conn)
      (operation other : Operation s.Conn R) (name : Str) (p : Result Error (Unit {0}) × s.Conn)
      → operation p.1 ≡ other p.1
      → opened s close_by operation (created s name p) ≡ opened s close_by other (created s name p)
  opened-same close_by operation other name (ok _, c) h = ap (close_by _) h
  opened-same close_by operation other name (err e, c) h = refl

  -- Only what the operation does inside the savepoint matters.
  with_savepoint-same :
      {R : Type 0} (name : Str) (operation other : Operation s.Conn R) (c : s.Conn)
      → operation (s.exec (savepoint name) c).1 ≡ other (s.exec (savepoint name) c).1
      → with_savepoint s name operation c ≡ with_savepoint s name other c
  unfolding with_savepoint guard_new
  with_savepoint-same name operation other c =
      opened-same (close_guard s) operation other name (s.exec (savepoint name) c)

  -- The part of a call of `migrate` that writes no rows and runs no migration.
  abbrev pub table_only : Str → Action s.Conn (Unit {0})
  table_only domain = do
    s.exec create_migration_table
    completed ← s.select_completed domain
    s.prepare_insert
    pure tt

  abbrev pub table_operation : Str → Operation s.Conn (Unit {0})
  table_operation domain c = let (r, c') = table_only domain c in (returned r, c')

module _ (s : Sqlite) (t : Transactions s) (j : Journal s t) (domain : Str)
    (allow : ℕ → Str → Str → Bool) where
  abbrev known_rows : s.Conn → List Row
  known_rows = view s t j domain allow

  -- The next call, with answers of its own.
  module _ (allow_next : ℕ → Str → Str → Bool)
      (still : (index : ℕ) (stored proposed : Str)
        → allow index stored proposed ≡ true
        → allow_next index stored proposed ≡ true) where
    Recorded-next :
        (rows : List Row) (index : ℕ) (migrations : List Str)
        → Recorded s domain allow rows index migrations
        → Recorded s domain allow_next rows index migrations
    unfolding accepts
    Recorded-next rows index [] h = tt
    Recorded-next rows index (m ∷ ms) ((row, stored, accepted), rest) = (
      (
        row,
        stored,
        or_mono (str_eq row.2 (prepare_migration s m).1)
            (still index (s.encode row.2) (s.encode (prepare_migration s m).1)) accepted,
      ),
      Recorded-next rows (suc index) ms rest,
    )

    run_and_check-again :
        (migrations : List Str) (rows : List Row) (c : s.Conn)
        → Recorded s domain allow rows 0 migrations
        → run_and_check s domain allow_next migrations rows c ≡ (ok tt, c)
    unfolding run_and_check
    run_and_check-again migrations rows c recorded =
        bind_of_ok (run_migrations s domain allow_next rows 0 migrations false)
          (λ did. when did (do delete_orphaned_rows s; s.exec foreign_key_check)) c
          (run_migrations-again s domain allow_next rows 0 migrations false c
            (Recorded-next rows 0 migrations recorded))

    migrate_body-again :
        (migrations : List Str) (c : s.Conn)
        → StatementsKeep s known_rows
        → Recorded s domain allow (known_rows c) 0 migrations
        → migrate_body s domain allow_next migrations c ≡ table_only s domain c
    unfolding migrate_body
    migrate_body-again migrations c keep recorded =
        let c1 = (s.exec create_migration_table c).1 in
        let c2 = (s.select_completed domain c1).1 in
        let checks = λ (completed : List Row).
          s.prepare_insert >> run_and_check s domain allow_next migrations completed in
        let nothing = λ (completed : List Row). s.prepare_insert >> pure tt in
        bind_same (s.exec create_migration_table) (λ _. s.select_completed domain >>= checks)
          (λ _. s.select_completed domain >>= nothing) c
          (λ _ _. bind_same (s.select_completed domain) checks nothing c1 (λ completed found.
            bind_same s.prepare_insert (λ _. run_and_check s domain allow_next migrations completed)
              (λ _. pure tt) c2
              (λ _ _.
                let known : completed ≡ known_rows c =
                  j.select_ok domain c1 completed found ∙ keep.create_keeps c in
                run_and_check-again migrations completed (s.prepare_insert c2).1
                  (rw known recorded))))

    -- After a call of `migrate` that succeeds, the next call on the connection that it leaves, with
    -- the same list and a caller that still accepts what it accepted, runs no migration and writes
    -- nothing: it is the call that only makes sure of the table and reads it inside the savepoint.
    -- The conditions are those of `migrate-Recorded`.
    pub migrate-again :
        (migrations : List Str) (c : s.Conn)
        → StatementsKeep s t.open_savepoints
        → ((row : Row) → Keeps t.open_savepoints (s.insert_completed row))
        → MigrationsKeep s t.open_savepoints migrations
        → StatementsKeep s known_rows
        → MigrationsKeep s known_rows migrations
        → IsNumbered s t j domain allow (known_rows c)
        → (migrate s domain allow migrations c).0 ≡ returned (ok tt)
        → let after = (migrate s domain allow migrations c).1 in
          migrate s domain allow_next migrations after
          ≡ with_savepoint s (text "migrating") (table_operation s domain) after
    unfolding migrate
    migrate-again migrations c open_keep insert opens keep all_keep numbered h =
        let after = (migrate s domain allow migrations c).1 in
        let start = (s.exec (savepoint (text "migrating")) after).1 in
        let (_, _, recorded) =
          migrate-Recorded s t j domain allow migrations c open_keep insert opens keep all_keep
            numbered h in
        let same : known_rows start ≡ known_rows after =
          savepoint-view s t j domain allow (text "migrating") after in
        with_savepoint-same s (text "migrating") (body_operation s domain allow_next migrations)
          (table_operation s domain) after
          (ap (λ q. (returned q.0, q.1))
            (migrate_body-again migrations start keep (rw same recorded)))
