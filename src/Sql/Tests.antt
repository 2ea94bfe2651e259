-- ===== src/Sql/Tests.antt =====
-- A database that keeps one domain's rows and the migrations that were run, with the theorems on the
-- SQL crate at it, and runs of its code.
use zaku.Prelude.{
  ◌≡◌, refl, ap, ℕ, Bool, false, Option, none, List, [], ◌∷◌, ◌++◌, Result, ok, err, All,
  Bool-cases, inl, inr, if◌then◌else◌,
}
use mathlib.Core.Path.{subst}
use zaku.Text.{Str, text, str_eq, eq_ignore_ascii_case}
use zaku.Sql.{
  Sqlite, Error, statement_failed, Sql, savepoint, release, rollback_and_release, delete_orphans,
  ForeignKey, Action, Row, returned, panicked, Operation, with_savepoint, with_savepoint_rollback,
}
use zaku.Sql.Contract.{Transactions}
use zaku.Sql.Savepoints.{
  Settled, IsInnermost, IsBalanced, inside, with_savepoint-Settled, with_savepoint-IsBalanced,
}
use zaku.Sql.Rollback.{SettledOrRolledBack, with_savepoint_rollback-Settled}
use zaku.Sql.Migrations.{migrate, normalize_migration, body_operation}
use zaku.Sql.Keeping.{StatementsKeep, NotOfMigrations}
use zaku.Sql.Recorded.{migrate-Settled}
use zaku.Sql.Journal.{Journal, rows_of}
use zaku.Sql.Migrated.{Migrated, migrate-Recorded}
use zaku.Sql.Again.{table_operation, migrate-again}
use zaku.Sql.Newlines.{with_crlf, normalize_migration-crlf}

-- The content: the rows of the table of migrations, and the migrations that were run.
abbrev Stored : Type 0
Stored = List Row × List Str

-- The connection: the content, and the open savepoints.
abbrev Opened : Type 0
Opened = Stored × List (Str × Stored)

abbrev release_top : Stored → List (Str × Stored) → Result Error (Unit {0}) × Opened
release_top now [] = (err (statement_failed (text "no such savepoint")), (now, []))
release_top now (top ∷ outer) = (ok tt, (now, outer))

abbrev roll_back_top : Stored → List (Str × Stored) → Result Error (Unit {0}) × Opened
roll_back_top now [] = (err (statement_failed (text "no such savepoint")), (now, []))
roll_back_top now (top ∷ outer) = (ok tt, (top.1, outer))

-- Rows of the savepoint "locked" are never rolled back. The table that rows are deleted from is noted
-- as if it were a migration.
abbrev run_sql : Sql → Action Opened (Unit {0})
run_sql (savepoint name) (now, open_now) = (ok tt, (now, (name, now) ∷ open_now))
run_sql (release name) (now, open_now) = release_top now open_now
run_sql (rollback_and_release name) (now, open_now) =
    if str_eq name (text "locked")
    then (err (statement_failed (text "locked")), (now, open_now))
    else roll_back_top now open_now
run_sql (delete_orphans key) ((rows, ran), open_now) = (
  ok tt,
  (
    if eq_ignore_ascii_case key.child_table (text "migration")
        then ([], ran)
        else (rows, ran ++ key.child_table ∷ []),
    open_now,
  ),
)
run_sql other c = (ok tt, c)

-- A migration is noted as run.
abbrev run_migration : Str → Action Opened (Unit {0})
run_migration sql ((rows, ran), open_now) = (ok tt, ((rows, ran ++ sql ∷ []), open_now))

abbrev insert_row : Row → Action Opened (Unit {0})
insert_row row ((rows, ran), open_now) = (ok tt, ((rows ++ row ∷ [], ran), open_now))

-- The only foreign key: books have authors.
abbrev book_author : ForeignKey
book_author = record {
  child_table = text "book";
  child_key = text "author_id";
  parent_table = text "author";
  parent_key = text "id";
}

abbrev sqlite : Sqlite
sqlite = record {
  Conn = Opened;
  exec = run_sql;
  select_completed = λ domain c. (ok c.0.0, c);
  prepare_insert = λ c. (ok tt, c);
  insert_completed = insert_row;
  sqlite3_exec = run_migration;
  select_foreign_keys = λ c. (ok (book_author ∷ []), c);
  digest = λ sql. sql;
  encode = λ checksum. checksum;
}

release_ok :
    (name : Str) (c : Opened) (saved : Stored) (outer : List (Str × Stored))
    → c.1 ≡ (name, saved) ∷ outer
    → (run_sql (release name) c).0 ≡ ok tt
    → ((run_sql (release name) c).1.0 ≡ c.0) × ((run_sql (release name) c).1.1 ≡ outer)
release_ok name (now, []) saved outer h done = cc
release_ok name (now, top ∷ rest) saved outer h done = (refl, cc)

release_err :
    (name : Str) (c : Opened) (e : Error)
    → (run_sql (release name) c).0 ≡ err e
    → ((run_sql (release name) c).1.0 ≡ c.0) × ((run_sql (release name) c).1.1 ≡ c.1)
release_err name (now, []) e failed = (refl, refl)
release_err name (now, top ∷ rest) e failed = cc

roll_back_top_ok :
    (name : Str) (now : Stored) (open_now : List (Str × Stored)) (saved : Stored)
    (outer : List (Str × Stored))
    → open_now ≡ (name, saved) ∷ outer
    → ((roll_back_top now open_now).1.0 ≡ saved) × ((roll_back_top now open_now).1.1 ≡ outer)
roll_back_top_ok name now [] saved outer h = cc
roll_back_top_ok name now (top ∷ rest) saved outer h = (cc, cc)

roll_back_top_err :
    (now : Stored) (open_now : List (Str × Stored)) (e : Error)
    → (roll_back_top now open_now).0 ≡ err e
    → (roll_back_top now open_now).1.1 ≡ open_now
roll_back_top_err now [] e failed = refl
roll_back_top_err now (top ∷ rest) e failed = cc

rollback_ok :
    (name : Str) (c : Opened) (saved : Stored) (outer : List (Str × Stored))
    → c.1 ≡ (name, saved) ∷ outer
    → (run_sql (rollback_and_release name) c).0 ≡ ok tt
    → ((run_sql (rollback_and_release name) c).1.0 ≡ saved)
      × ((run_sql (rollback_and_release name) c).1.1 ≡ outer)
rollback_ok name (now, open_now) saved outer h = elim (Bool-cases (str_eq name (text "locked"))) [
  | inl locked ↦ λ done. cc (rw locked at done)
  | inr free ↦ λ _. rw free (roll_back_top_ok name now open_now saved outer h)
]

rollback_err :
    (name : Str) (c : Opened) (e : Error)
    → (run_sql (rollback_and_release name) c).0 ≡ err e
    → (run_sql (rollback_and_release name) c).1.1 ≡ c.1
rollback_err name (now, open_now) e = elim (Bool-cases (str_eq name (text "locked"))) [
  | inl locked ↦ λ _. rw locked refl
  | inr free ↦ λ failed. rw free (roll_back_top_err now open_now e (rw free at failed))
]

savepoint_err :
    (name : Str) (c : Opened) (e : Error)
    → (run_sql (savepoint name) c).0 ≡ err e
    → let c' = (run_sql (savepoint name) c).1 in (c'.0 ≡ c.0) × (c'.1 ≡ c.1)
savepoint_err name c e failed = absurd (cc failed)

select_ok :
    (domain : Str) (c : Opened) (found : List Row)
    → ◌≡◌ {A = Result Error (List Row)} (ok c.0.0) (ok found)
    → found ≡ c.0.0
select_ok domain c found h = cc

abbrev transactions : Transactions sqlite
transactions = record {
  Content = Stored;
  database = λ c. c.0;
  open_savepoints = λ c. c.1;
  savepoint_ok = λ name c done. (refl, refl);
  savepoint_err = savepoint_err;
  release_ok = release_ok;
  release_err = release_err;
  rollback_ok = rollback_ok;
  rollback_err = rollback_err;
}

abbrev journal : Journal sqlite transactions
journal = record {
  rows = λ domain content. content.0;
  select_ok = select_ok;
  insert_ok = λ domain step checksum c below done. refl;
}

other_tables :
    (c : Opened) (keys : List ForeignKey)
    → (sqlite.select_foreign_keys c).0 ≡ ok keys
    → All NotOfMigrations keys
other_tables c keys h =
    let same : book_author ∷ [] ≡ keys = cc in subst (All NotOfMigrations) same (refl, tt)

delete_keeps_rows :
    (key : ForeignKey)
    → NotOfMigrations key
    → (c : Opened) → (run_sql (delete_orphans key) c).1.0.0 ≡ c.0.0
delete_keeps_rows key h c = rw h refl

abbrev savepoints_kept : StatementsKeep sqlite transactions.open_savepoints
savepoints_kept = record {
  create_keeps = λ c. refl;
  check_keeps = λ c. refl;
  delete_keeps = λ key other c. refl;
  other_tables = other_tables;
  keys_keep = λ c. refl;
  select_keeps = λ domain c. refl;
  prepare_keeps = λ c. refl;
}

abbrev app : Str
app = text "app"

abbrev never : ℕ → Str → Str → Bool
never index stored proposed = false

abbrev rows_kept : StatementsKeep sqlite (rows_of sqlite transactions journal app never)
rows_kept = record {
  create_keeps = λ c. refl;
  check_keeps = λ c. refl;
  delete_keeps = delete_keeps_rows;
  other_tables = other_tables;
  keys_keep = λ c. refl;
  select_keeps = λ domain c. refl;
  prepare_keeps = λ c. refl;
}

abbrev empty : Opened
empty = (([], []), [])

abbrev create_a : Str
create_a = text "CREATE a"

abbrev create_b : Str
create_b = text " CREATE b\n"

-- An operation that writes and then panics, and one that asks for the rollback.
abbrev crash : Operation Opened ℕ
crash ((rows, ran), open_now) = (panicked, ((rows, ran ++ create_a ∷ []), open_now))

abbrev withdraw : Operation Opened (Option ℕ)
withdraw ((rows, ran), open_now) = (returned (ok none), ((rows, ran ++ create_a ∷ []), open_now))

panic_is_undone : (with_savepoint sqlite (text "s") crash empty).1 ≡ empty
unfolding with_savepoint
panic_is_undone = refl

with_savepoint-Settled_example :
    let q = with_savepoint sqlite (text "s") crash empty in
    let worked = inside sqlite transactions (text "s") crash empty in
    Settled sqlite transactions (text "s") worked.0 empty.0 worked.1.0 q.0 q.1
with_savepoint-Settled_example =
    with_savepoint-Settled sqlite transactions (text "s") crash empty (λ c. refl)

rolls_back :
    (c : Opened)
    → IsInnermost sqlite transactions (text "s") c
    → (run_sql (rollback_and_release (text "s")) c).0 ≡ ok tt
rolls_back (now, []) (saved, outer, h) = cc
rolls_back (now, top ∷ rest) h = refl

-- Where no rollback succeeds, the work stays, and the savepoint open.
stuck :
    with_savepoint sqlite (text "locked") crash empty
    ≡ (panicked, (([], create_a ∷ []), (text "locked", empty.0) ∷ []))
unfolding with_savepoint
stuck = refl

with_savepoint-IsBalanced_example :
    IsBalanced sqlite transactions (with_savepoint sqlite (text "s") crash)
with_savepoint-IsBalanced_example =
    with_savepoint-IsBalanced sqlite transactions (text "s") crash rolls_back (λ c. refl)

with_savepoint_rollback-Settled_example :
    let q = with_savepoint_rollback sqlite (text "s") withdraw empty in
    let worked = inside sqlite transactions (text "s") withdraw empty in
    SettledOrRolledBack sqlite transactions (text "s") worked.0 empty.0 worked.1.0 q.0 q.1
with_savepoint_rollback-Settled_example =
    with_savepoint_rollback-Settled sqlite transactions (text "s") withdraw empty (λ c. refl)

two_migrations : migrate sqlite app never (create_a ∷ create_b ∷ []) empty ≡ (
  returned (ok tt),
  (
    (
      (app, 0, create_a) ∷ (app, 1, text "CREATE b") ∷ [],
      create_a ∷ text "CREATE b" ∷ text "book" ∷ [],
    ),
    [],
  ),
)
unfolding migrate with_savepoint normalize_migration
two_migrations = refl

migrate-Settled_example :
    let q = migrate sqlite app never (create_a ∷ create_b ∷ []) empty in
    let worked =
      inside sqlite transactions
        (text "migrating")
        (body_operation sqlite app never (create_a ∷ create_b ∷ []))
        empty in
    Settled sqlite transactions (text "migrating") worked.0 empty.0 worked.1.0 q.0 q.1
migrate-Settled_example =
    migrate-Settled sqlite transactions app never (create_a ∷ create_b ∷ []) empty savepoints_kept
      (λ row c. refl) ((λ c. refl), ((λ c. refl), tt))

migrate-Recorded_example :
    Migrated sqlite transactions journal app never []
      (create_a ∷ create_b ∷ [])
      (migrate sqlite app never (create_a ∷ create_b ∷ []) empty).1
migrate-Recorded_example =
    migrate-Recorded sqlite transactions journal app never (create_a ∷ create_b ∷ []) empty
      savepoints_kept (λ row c. refl) ((λ c. refl), ((λ c. refl), tt)) rows_kept
      ((λ c. refl), ((λ c. refl), tt)) tt (ap (λ q. q.0) two_migrations)

migrate-again_example :
    let migrations = create_a ∷ create_b ∷ [] in
    let after = (migrate sqlite app never migrations empty).1 in
    migrate sqlite app never migrations after
    ≡ with_savepoint sqlite (text "migrating") (table_operation sqlite app) after
migrate-again_example =
    migrate-again sqlite transactions journal app never never (λ index stored proposed h. h)
      (create_a ∷ create_b ∷ []) empty savepoints_kept (λ row c. refl)
      ((λ c. refl), ((λ c. refl), tt)) rows_kept ((λ c. refl), ((λ c. refl), tt)) tt
      (ap (λ q. q.0) two_migrations)

normalize_migration-crlf_example :
    normalize_migration (with_crlf create_b) ≡ normalize_migration create_b
normalize_migration-crlf_example = normalize_migration-crlf create_b refl
