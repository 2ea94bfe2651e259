-- ===== src/Sql/Contract.antt =====
-- What crates/sql relies on of SQLite's savepoints: the content of the database, and the open
-- savepoints, innermost first, each with the content at the time it was made.
use zaku.Prelude.{List, ◌∷◌, ◌≡◌, ok, err}
use zaku.Text.{Str}
use zaku.Sql.{Sqlite, Error, savepoint, release, rollback_and_release}

-- `SAVEPOINT` notes the content; `RELEASE` of the innermost savepoint forgets it and keeps the
-- content, or fails and changes nothing (the database is busy); `ROLLBACK TO` and `RELEASE` of the
-- innermost savepoint restore its content, or fail and leave the savepoint open, with the content
-- either restored or not, by the one of the two that failed.
pub record Transactions (s : Sqlite) : Type 1 where
  pub Content : Type 0
  pub database : s.Conn → Content
  pub open_savepoints : s.Conn → List (Str × Content)
  pub savepoint_ok :
      (name : Str) (c : s.Conn)
      → (s.exec (savepoint name) c).0 ≡ ok tt
      → let c' = (s.exec (savepoint name) c).1 in
        (database c' ≡ database c) × (open_savepoints c' ≡ (name, database c) ∷ open_savepoints c)
  pub savepoint_err :
      (name : Str) (c : s.Conn) (e : Error)
      → (s.exec (savepoint name) c).0 ≡ err e
      → let c' = (s.exec (savepoint name) c).1 in
        (database c' ≡ database c) × (open_savepoints c' ≡ open_savepoints c)
  pub release_ok :
      (name : Str) (c : s.Conn) (saved : Content) (outer : List (Str × Content))
      → open_savepoints c ≡ (name, saved) ∷ outer
      → (s.exec (release name) c).0 ≡ ok tt
      → let c' = (s.exec (release name) c).1 in
        (database c' ≡ database c) × (open_savepoints c' ≡ outer)
  pub release_err :
      (name : Str) (c : s.Conn) (e : Error)
      → (s.exec (release name) c).0 ≡ err e
      → let c' = (s.exec (release name) c).1 in
        (database c' ≡ database c) × (open_savepoints c' ≡ open_savepoints c)
  pub rollback_ok :
      (name : Str) (c : s.Conn) (saved : Content) (outer : List (Str × Content))
      → open_savepoints c ≡ (name, saved) ∷ outer
      → (s.exec (rollback_and_release name) c).0 ≡ ok tt
      → let c' = (s.exec (rollback_and_release name) c).1 in
        (database c' ≡ saved) × (open_savepoints c' ≡ outer)
  pub rollback_err :
      (name : Str) (c : s.Conn) (e : Error)
      → (s.exec (rollback_and_release name) c).0 ≡ err e
      → open_savepoints (s.exec (rollback_and_release name) c).1 ≡ open_savepoints c
