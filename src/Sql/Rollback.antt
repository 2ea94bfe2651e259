-- ===== src/Sql/Rollback.antt =====
-- crates/sql/src/savepoint.rs: `with_savepoint_rollback`, whose operation can also ask for the
-- rollback by returning `Ok(None)`.
use zaku.Prelude.{◌≡◌, refl, ◌∙◌, Option, none, some, List, ◌∷◌, ◌⊎◌, inl, inr, Result, ok, err}
use zaku.Text.{Str}
use zaku.Sql.{
  Sqlite, Error, Outcome, returned, panicked, Operation, savepoint, release, finished_by, guard_new,
  guard_release, guard_rollback_and_release, guard_finish, guard_drop, dropped, close_or_rollback,
  with_savepoint_rollback,
}
use zaku.Sql.Contract.{Transactions}
use zaku.Sql.Savepoints.{
  IsBalanced, Closed, guard, drop-Ended, Undone, Stuck, rolled_back, opened_lem, inside,
}

module _ (s : Sqlite) (t : Transactions s) where
  open s use {Conn, exec}
  open t use {Content, database, open_savepoints}

  -- The same for `with_savepoint_rollback`, where `Ok(None)` asks for the rollback.
  abbrev pub SettledOrRolledBack :
      {R : Type 0}
      → Str
      → Outcome (Option R)
      → Content
      → Content
      → Outcome (Option R)
      → Conn
      → Type 0
  SettledOrRolledBack name end before worked (returned (ok (some value))) c =
      (end ≡ returned (ok (some value))) × (database c ≡ worked)
  SettledOrRolledBack name end before worked (returned (ok none)) c =
      (end ≡ returned (ok none)) × (database c ≡ before)
  SettledOrRolledBack name end before worked (returned (err e)) c = Undone s t name before c
  SettledOrRolledBack name end before worked panicked c = Undone s t name before c

  module _ (name : Str) (saved : Content) (outer : List (Str × Content)) where
    released_some :
        {R : Type 0} (value : R) (worked : Content) (p : Result Error (Unit {0}) × Conn)
        → (p.0 ≡ ok tt → Closed s t worked outer p.1)
        → ((e : Error) → p.0 ≡ err e → open_savepoints p.1 ≡ (name, saved) ∷ outer)
        → let q = dropped s (ok (some value)) (finished_by s (guard s t name saved outer) p) in
          SettledOrRolledBack name (returned (ok (some value))) saved worked q.0 q.1
          × ((open_savepoints q.1 ≡ outer) ⊎ Stuck s t name q.1)
    unfolding dropped guard_drop guard_finish
    released_some value worked (ok _, c) done failed = ((refl, (done refl).0), inl (done refl).1)
    released_some value worked (err e, c) done failed =
        drop-Ended s t name saved outer c (failed e refl)

    close_or_rollback-Settled :
        {R : Type 0} (p : Outcome (Option R) × Conn)
        → open_savepoints p.1 ≡ (name, saved) ∷ outer
        → let q = close_or_rollback s (guard s t name saved outer) p in
          SettledOrRolledBack name p.0 saved (database p.1) q.0 q.1
          × ((open_savepoints q.1 ≡ outer) ⊎ Stuck s t name q.1)
    unfolding close_or_rollback guard_release guard_rollback_and_release
    close_or_rollback-Settled (returned (ok (some value)), c) h =
        released_some value (database c) (exec (release name) c) (t.release_ok name c saved outer h)
          (λ e failed. (t.release_err name c e failed).1 ∙ h)
    close_or_rollback-Settled {R} (returned (ok none), c) h =
        elim (rolled_back s t name saved outer {R = Option R} (ok none) c h) [
          | inl (end, closed) ↦ (rw end (refl, closed.0), inl closed.1)
          | inr (f, end, ended) ↦ (rw end ended.0, ended.1)
        ]
    close_or_rollback-Settled {R} (returned (err e), c) h =
        elim (rolled_back s t name saved outer {R = Option R} (err e) c h) [
          | inl (end, closed) ↦ (rw end (inl closed.0), inl closed.1)
          | inr (f, end, ended) ↦ (rw end ended.0, ended.1)
        ]
    close_or_rollback-Settled (panicked, c) h = drop-Ended s t name saved outer c h

  module _ {R : Type 0} (name : Str) (operation : Operation Conn (Option R)) (c : Conn) where
    with_savepoint_rollback-both :
        IsBalanced s t operation
        → let q = with_savepoint_rollback s name operation c in
          let worked = inside s t name operation c in
          SettledOrRolledBack name worked.0 (database c) (database worked.1) q.0 q.1
          × ((open_savepoints q.1 ≡ open_savepoints c) ⊎ Stuck s t name q.1)
    unfolding with_savepoint_rollback guard_new
    with_savepoint_rollback-both =
        opened_lem s t name operation c (close_or_rollback s)
          (λ end worked q now. SettledOrRolledBack name end (database c) worked q now)
          (close_or_rollback-Settled name (database c) (open_savepoints c))
          (λ end worked now e h. inl h) (exec (savepoint name) c) (t.savepoint_ok name c)
          (t.savepoint_err name c)

  -- `with_savepoint_rollback` keeps the work of an operation that returns `Some` value, where the
  -- release succeeds; where it returns `Ok(None)`, the operation did and the database is as before
  -- the call; where it returns an error, or panics, the database is as before the call, unless the
  -- last attempt to roll back failed.
  pub with_savepoint_rollback-Settled :
      {R : Type 0} (name : Str) (operation : Operation Conn (Option R)) (c : Conn)
      → IsBalanced s t operation
      → let q = with_savepoint_rollback s name operation c in
        let worked = inside s t name operation c in
        SettledOrRolledBack name worked.0 (database c) (database worked.1) q.0 q.1
  with_savepoint_rollback-Settled name operation c balanced =
      (with_savepoint_rollback-both name operation c balanced).0
