-- ===== src/Sql/Migrations.antt =====
-- crates/sql/src/migrations.rs: the migrations of a domain, run in order inside one savepoint, and
-- recorded with their checksums. The log lines are left out.
use zaku.Prelude.{
  ℕ, suc, Bool, true, false, ◌||◌, none, some, List, [], ◌∷◌, ok, err, get_elem?, ◌==◌,
  if◌then◌else◌,
}
use zaku.Text.Trim.{trim}
use zaku.Text.{Str, str_eq, text, contains}
use zaku.Sql.{
  Sqlite, Error, interior_nul, migration_changed, Action, Row, ForeignKey, create_migration_table,
  foreign_key_check, delete_orphans, returned, Operation, with_savepoint,
}

-- The loop over the characters: each of "\r\n" and "\r" becomes "\n".
unfoldable pub unify_newlines : Str → Str
unify_newlines [] = []
unify_newlines (c ∷ []) = (if c == 13 then 10 else c) ∷ []
unify_newlines (c ∷ d ∷ s) =
    let after_pair = unify_newlines s in
    let rest = unify_newlines (d ∷ s) in
    if c == 13 then 10 ∷ (if d == 10 then after_pair else rest) else c ∷ rest

unfoldable pub normalize_migration : Str → Str
unfolding trim unify_newlines
normalize_migration migration =
    let trimmed = trim migration in if contains 13 trimmed then unify_newlines trimmed else trimmed

infixl 5 ◌>>=◌ ◌>>◌
abbrev pub ◌>>=◌ : {C A B : Type 0} → Action C A → (A → Action C B) → Action C B
◌>>=◌ m f c = let (r, c') = m c in elim r [ ok a ↦ f a c' | err e ↦ (err e, c') ]

abbrev pub ◌>>◌ : {C B : Type 0} → Action C (Unit {0}) → Action C B → Action C B
m >> k = m >>= λ _. k

abbrev pub pure : {C A : Type 0} → A → Action C A
pure a c = (ok a, c)

abbrev pub raise : {C A : Type 0} → Error → Action C A
raise e c = (err e, c)

abbrev pub when : {C : Type 0} → Bool → Action C (Unit {0}) → Action C (Unit {0})
when true m = m
when false m = pure tt

module _ (s : Sqlite) where
  open s use {
    Conn, exec, select_completed, prepare_insert, insert_completed, sqlite3_exec,
    select_foreign_keys, digest, encode,
  }

  -- `CString::new` refuses a text with a NUL inside.
  unfoldable pub eager_exec : Str → Action Conn (Unit {0})
  eager_exec sql = if contains 0 sql then raise interior_nul else sqlite3_exec sql

  unfoldable pub prepare_migration : Str → Str × List ℕ
  unfolding normalize_migration
  prepare_migration migration =
      let normalized = normalize_migration migration in (normalized, digest normalized)

  unfoldable pub delete_each : List ForeignKey → Action Conn (Unit {0})
  delete_each [] = pure tt
  delete_each (key ∷ keys) = do exec (delete_orphans key); delete_each keys

  unfoldable pub delete_orphaned_rows : Action Conn (Unit {0})
  unfolding delete_each
  delete_orphaned_rows = do keys ← select_foreign_keys; delete_each keys

  -- The answers of the caller's `FnMut` during one call of `migrate`, which asks it about each index
  -- at most once, so that they are a function; another call may have other answers.
  module _ (domain : Str) (should_allow_migration_change : ℕ → Str → Str → Bool) where
    -- What the loop does with a migration whose step is already recorded.
    unfoldable pub accepts : ℕ → List ℕ → List ℕ → Bool
    accepts index stored proposed =
        str_eq stored proposed
        || should_allow_migration_change index (encode stored) (encode proposed)

    unfoldable pub changed : ℕ → List ℕ → List ℕ → Error
    changed index stored proposed = migration_changed domain index (encode stored) (encode proposed)

    -- The loop, from the migration of number `index`: whether a migration was run.
    unfoldable pub run_migrations : List Row → ℕ → List Str → Bool → Action Conn Bool
    unfolding eager_exec prepare_migration accepts changed
    run_migrations completed index [] did_migrate = pure did_migrate
    run_migrations completed index (m ∷ ms) did_migrate =
        let (migration, proposed) = prepare_migration m in
        elim (get_elem? completed index) [
          | some row ↦
              let rest = run_migrations completed (suc index) ms did_migrate in
              if accepts index row.2 proposed then rest else raise (changed index row.2 proposed)
          | none ↦ do
            eager_exec migration
            insert_completed (domain, index, proposed)
            run_migrations completed (suc index) ms true
        ]

    unfoldable pub run_and_check : List Str → List Row → Action Conn (Unit {0})
    unfolding run_migrations delete_orphaned_rows
    run_and_check migrations completed = do
      did_migrate ← run_migrations completed 0 migrations false
      when did_migrate (do delete_orphaned_rows; exec foreign_key_check)

    -- The closure that `migrate` runs inside its savepoint.
    unfoldable pub migrate_body : List Str → Action Conn (Unit {0})
    unfolding run_and_check
    migrate_body migrations = do
      exec create_migration_table
      completed ← select_completed domain
      prepare_insert
      run_and_check migrations completed

    abbrev pub body_operation : List Str → Operation Conn (Unit {0})
    body_operation migrations c = let (r, c') = migrate_body migrations c in (returned r, c')

    unfoldable pub migrate : List Str → Operation Conn (Unit {0})
    unfolding migrate_body
    migrate migrations = with_savepoint s (text "migrating") (body_operation migrations)
