-- ===== src/Sql/Savepoints.antt =====
-- crates/sql/src/savepoint.rs: an operation inside a savepoint takes effect whole or not at all, and
-- leaves the savepoints that were open before it as they were.
use zaku.Prelude.{◌≡◌, refl, ◌∙◌, false, List, ◌∷◌, ◌⊎◌, inl, inr, sym, ap, Result, ok, err}
use zaku.Text.{Str}
use zaku.Sql.{
  Sqlite, Error, Outcome, returned, panicked, Operation, SavepointGuard, savepoint, release,
  rollback_and_release, finished_by, created, guard_new, guard_release, guard_rollback_and_release,
  guard_finish, guard_drop, dropped, close_guard, opened, with_savepoint,
}
use zaku.Sql.Contract.{Transactions}

module _ (s : Sqlite) (t : Transactions s) where
  open s use {Conn, exec}
  open t use {Content, database, open_savepoints}

  -- A call closes the savepoints that it opens.
  abbrev pub IsBalanced : {R : Type 0} → (Conn → R × Conn) → Type 0
  IsBalanced call = (c : Conn) → open_savepoints (call c).1 ≡ open_savepoints c

  -- The connection stands where the guard's savepoint is closed, with a given content.
  abbrev pub Closed : Content → List (Str × Content) → Conn → Type 0
  Closed now outer c = (database c ≡ now) × (open_savepoints c ≡ outer)

  -- The savepoint is the innermost one.
  abbrev pub IsInnermost : Str → Conn → Type 0
  IsInnermost name c =
      (saved : Content) × (outer : List (Str × Content)) × (open_savepoints c
        ≡ (name, saved) ∷ outer)

  -- The connection is what a failed rollback to the innermost savepoint left.
  abbrev pub Stuck : Str → Conn → Type 0
  Stuck name c =
      (c' : Conn) × (e : Error) × IsInnermost name c'
      × (s.exec (rollback_and_release name) c' ≡ (err e, c))

  -- The database is as before, but for a rollback that SQLite failed to do.
  abbrev pub Undone : Str → Content → Conn → Type 0
  Undone name before c = (database c ≡ before) ⊎ Stuck name c

  -- An operation took effect whole, with its value, or not at all: `worked` is where it left the
  -- database, `before` the database before everything, `c` the connection at the end.
  abbrev pub Settled :
      {R : Type 0} → Str → Outcome R → Content → Content → Outcome R → Conn → Type 0
  Settled name end before worked (returned (ok value)) c =
      (end ≡ returned (ok value)) × (database c ≡ worked)
  Settled name end before worked (returned (err e)) c = Undone name before c
  Settled name end before worked panicked c = Undone name before c

  module _ (name : Str) (saved : Content) (outer : List (Str × Content)) where
    abbrev pub guard : SavepointGuard
    guard = record { name = name; finished = false }

    -- The savepoint is closed and the database is as before, or a rollback failed.
    abbrev pub Ended : Conn → Type 0
    Ended c = Undone name saved c × ((open_savepoints c ≡ outer) ⊎ Stuck name c)

    pub drop-Ended :
        (c : Conn) → open_savepoints c ≡ (name, saved) ∷ outer → Ended (guard_drop s guard c)
    unfolding guard_drop guard_finish guard_rollback_and_release
    drop-Ended c h = at_end (exec (rollback_and_release name) c) refl
      where
        at_end :
            (p : Result Error (Unit {0}) × Conn)
            → exec (rollback_and_release name) c ≡ p
            → Ended (finished_by s guard p).2
        at_end (ok _, c') e =
            let closed = t.rollback_ok name c saved outer h (ap (λ q. q.0) e) in
            (
              inl (ap (λ q. database q.1) (sym e) ∙ closed.0),
              inl (ap (λ q. open_savepoints q.1) (sym e) ∙ closed.1),
            )
        at_end (err f, c') e = (inr (c, f, (saved, outer, h), e), inr (c, f, (saved, outer, h), e))

    -- A rollback, after which the guard is dropped: a rollback that failed is tried again.
    pub rolled_back :
        {R : Type 0} (result : Result Error R) (c : Conn)
        → open_savepoints c ≡ (name, saved) ∷ outer
        → let q = dropped s result (finished_by s guard (exec (rollback_and_release name) c)) in
          ((q.0 ≡ returned result) × Closed saved outer q.1)
          ⊎ ((e : Error) × (q.0 ≡ returned (err e)) × Ended q.1)
    unfolding dropped guard_drop guard_finish
    rolled_back {R} result c h = at_end (exec (rollback_and_release name) c) refl
      where
        at_end :
            (p : Result Error (Unit {0}) × Conn)
            → exec (rollback_and_release name) c ≡ p
            → let q = dropped s result (finished_by s guard p) in
              ((q.0 ≡ returned result) × Closed saved outer q.1)
              ⊎ ((e : Error) × (q.0 ≡ returned (err e)) × Ended q.1)
        at_end (ok _, c') e =
            let closed = t.rollback_ok name c saved outer h (ap (λ q. q.0) e) in
            inl (
              refl,
              (
                ap (λ q. database q.1) (sym e) ∙ closed.0,
                ap (λ q. open_savepoints q.1) (sym e) ∙ closed.1,
              ),
            )
        at_end (err f, c') e =
            let still_open = t.rollback_err name c f (ap (λ q. q.0) e) ∙ h in
            inr (f, refl, drop-Ended c' (ap (λ q. open_savepoints q.1) (sym e) ∙ still_open))

    released :
        {R : Type 0} (value : R) (worked : Content) (p : Result Error (Unit {0}) × Conn)
        → (p.0 ≡ ok tt → Closed worked outer p.1)
        → ((e : Error) → p.0 ≡ err e → open_savepoints p.1 ≡ (name, saved) ∷ outer)
        → let q = dropped s (ok value) (finished_by s guard p) in
          Settled name (returned (ok value)) saved worked q.0 q.1
          × ((open_savepoints q.1 ≡ outer) ⊎ Stuck name q.1)
    unfolding dropped guard_drop guard_finish
    released value worked (ok _, c) done failed = ((refl, (done refl).0), inl (done refl).1)
    released value worked (err e, c) done failed = drop-Ended c (failed e refl)

    -- The end of `with_savepoint`, wherever the operation left the connection.
    close_guard-Settled :
        {R : Type 0} (p : Outcome R × Conn)
        → open_savepoints p.1 ≡ (name, saved) ∷ outer
        → let q = close_guard s guard p in
          Settled name p.0 saved (database p.1) q.0 q.1
          × ((open_savepoints q.1 ≡ outer) ⊎ Stuck name q.1)
    unfolding close_guard guard_release guard_rollback_and_release
    close_guard-Settled (returned (ok value), c) h =
        released value (database c) (exec (release name) c) (t.release_ok name c saved outer h)
          (λ e failed. (t.release_err name c e failed).1 ∙ h)
    close_guard-Settled {R} (returned (err e), c) h = elim (rolled_back {R = R} (err e) c h) [
      | inl (end, closed) ↦ (rw end (inl closed.0), inl closed.1)
      | inr (f, end, ended) ↦ (rw end ended.0, ended.1)
    ]
    close_guard-Settled (panicked, c) h = drop-Ended c h

  -- The database that an operation inside the savepoint `name` leaves, and how it ends.
  abbrev pub inside : {R : Type 0} → Str → Operation Conn R → Conn → Outcome R × Conn
  inside name operation c = operation (exec (savepoint name) c).1

  module _ {R : Type 0} (name : Str) (operation : Operation Conn R) (c : Conn) where
    -- The frame of both calls, for what they promise of the end and the connection.
    pub opened_lem :
        (close_by : SavepointGuard → Outcome R × Conn → Outcome R × Conn)
        → (Promise : Outcome R → Content → Outcome R → Conn → Type 0)
        → ((p : Outcome R × Conn)
            → open_savepoints p.1 ≡ (name, database c) ∷ open_savepoints c
            → let q = close_by (guard name (database c) (open_savepoints c)) p in
              Promise p.0 (database p.1) q.0 q.1
              × ((open_savepoints q.1 ≡ open_savepoints c) ⊎ Stuck name q.1))
        → ((end : Outcome R) (worked : Content) (now : Conn) (e : Error)
            → database now ≡ database c
            → Promise end worked (returned (err e)) now)
        → (p : Result Error (Unit {0}) × Conn)
        → (p.0 ≡ ok tt → Closed (database c) ((name, database c) ∷ open_savepoints c) p.1)
        → ((e : Error) → p.0 ≡ err e → Closed (database c) (open_savepoints c) p.1)
        → IsBalanced operation
        → let q = opened s close_by operation (created s name p) in
          let worked = operation p.1 in
          Promise worked.0 (database worked.1) q.0 q.1
          × ((open_savepoints q.1 ≡ open_savepoints c) ⊎ Stuck name q.1)
    opened_lem close_by Promise closing refused (ok _, c1) done failed balanced =
        closing (operation c1) (balanced c1 ∙ (done refl).1)
    opened_lem close_by Promise closing refused (err e, c1) done failed balanced = (
      refused (operation c1).0 (database (operation c1).1) c1 e (failed e refl).0,
      inl (failed e refl).1,
    )

    with_savepoint-both :
        IsBalanced operation
        → let q = with_savepoint s name operation c in
          let worked = inside name operation c in
          Settled name worked.0 (database c) (database worked.1) q.0 q.1
          × ((open_savepoints q.1 ≡ open_savepoints c) ⊎ Stuck name q.1)
    unfolding with_savepoint guard_new
    with_savepoint-both =
        opened_lem (close_guard s) (λ end worked q now. Settled name end (database c) worked q now)
          (close_guard-Settled name (database c) (open_savepoints c)) (λ end worked now e h. inl h)
          (exec (savepoint name) c) (t.savepoint_ok name c) (t.savepoint_err name c)

  -- An operation that closes the savepoints that it opens takes effect whole or not at all inside
  -- `with_savepoint`: where the call returns a value, that is the operation's value, and the
  -- database stands where the operation left it; where it returns an error or panics (the savepoint
  -- could not be made, the operation failed or panicked, the release failed), the database is as
  -- before the call, unless the last attempt to roll back, in the guard's drop, failed.
  pub with_savepoint-Settled :
      {R : Type 0} (name : Str) (operation : Operation Conn R) (c : Conn)
      → IsBalanced operation
      → let q = with_savepoint s name operation c in
        let worked = inside name operation c in
        Settled name worked.0 (database c) (database worked.1) q.0 q.1
  with_savepoint-Settled name operation c balanced =
      (with_savepoint-both name operation c balanced).0

  -- It closes its own savepoint, unless the last attempt to roll back failed.
  pub with_savepoint-closes :
      {R : Type 0} (name : Str) (operation : Operation Conn R) (c : Conn)
      → IsBalanced operation
      → let q = with_savepoint s name operation c in
        (open_savepoints q.1 ≡ open_savepoints c) ⊎ Stuck name q.1
  with_savepoint-closes name operation c balanced =
      (with_savepoint-both name operation c balanced).1

  -- Where SQLite does not fail to roll back, it closes its own savepoint on every path, so calls of
  -- it nest.
  pub with_savepoint-IsBalanced :
      {R : Type 0} (name : Str) (operation : Operation Conn R)
      → ((c : Conn) → IsInnermost name c → (exec (rollback_and_release name) c).0 ≡ ok tt)
      → IsBalanced operation
      → IsBalanced (with_savepoint s name operation)
  with_savepoint-IsBalanced name operation rolls balanced c =
      elim (with_savepoint-closes name operation c balanced) [
        | inl closed ↦ closed
        | inr (c', e, innermost, failed) ↦ absurd (cc (rolls c' innermost, failed))
      ]
