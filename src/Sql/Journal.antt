-- ===== src/Sql/Journal.antt =====
-- crates/sql/src/migrations.rs: the table of migrations, and what `migrate` writes into it.
use zaku.Prelude.{
  ◌≡◌, sym, ap, ◌∙◌, ℕ, suc, ◌+◌, ◌-◌, ◌<◌, ◌≤◌, Bool, true, false, none, some, List, [], ◌∷◌, ◌++◌,
  Result, ok, err, Bool-cases, Option-cases, Result-cases, inl, inr, get_elem?, get_elem?-append,
  get_elem?-length, length_of_none, lt-length_of_get_elem?, length, length-append, All, All-append,
  All-map, arith,
}
use mathlib.Core.Path.{subst}
use mathlib.Core.List.{append-nil, append_assoc}
use zaku.Text.Split.{str_eq_self}
use zaku.Text.{Str}
use zaku.Sql.{Sqlite, Error, Action, Row}
use zaku.Sql.Contract.{Transactions}
use zaku.Sql.Migrations.{
  ◌>>=◌, ◌>>◌, accepts, changed, prepare_migration, eager_exec, run_migrations,
}
use zaku.Sql.Keeping.{MigrationsKeep, eager_exec-Keeps}
use zaku.Sql.Recorded.{Recorded}

-- What holds after a bind: after the rest where the first call succeeds, else of its error.
pub bind_rule :
    {C A B : Type 0} (m : Action C A) (f : A → Action C B) (c : C) (P : Result Error B × C → Type 0)
    → ((a : A) → (m c).0 ≡ ok a → P (f a (m c).1))
    → ((e : Error) → P (err e, (m c).1))
    → P ((m >>= f) c)
bind_rule m f c P done failed = elim (Result-cases (m c).0) [
  | inl (e, h) ↦ rw (h, ◌>>=◌) (failed e)
  | inr (a, h) ↦ rw (h, ◌>>=◌) (done a h)
]

-- The rows of a domain, ordered by step. A row whose step is greater than all of them comes last.
pub record Journal (s : Sqlite) (t : Transactions s) : Type 0 where
  pub rows : Str → t.Content → List Row
  pub select_ok :
      (domain : Str) (c : s.Conn) (found : List Row)
      → (s.select_completed domain c).0 ≡ ok found
      → found ≡ rows domain (t.database c)
  pub insert_ok :
      (domain : Str) (step : ℕ) (checksum : List ℕ) (c : s.Conn)
      → All (λ row. row.1 < step) (rows domain (t.database c))
      → (s.insert_completed (domain, step, checksum) c).0 ≡ ok tt
      → rows domain (t.database (s.insert_completed (domain, step, checksum) c).1)
        ≡ rows domain (t.database c) ++ (domain, step, checksum) ∷ []

module _ (s : Sqlite) (t : Transactions s) (j : Journal s t) (domain : Str)
    (allow : ℕ → Str → Str → Bool) where
  abbrev pub rows_of : s.Conn → List Row
  rows_of c = j.rows domain (t.database c)

  -- Every step is below the number of rows, as it is where the steps count up from zero.
  abbrev pub IsNumbered : List Row → Type 0
  IsNumbered rows = All (λ row. row.1 < length rows) rows

  -- A call that succeeds has added rows, and left a row for every migration from `index` on.
  abbrev pub Wrote : List Row → ℕ → List Str → Result Error Bool × s.Conn → Type 0
  Wrote before index migrations q =
      (did : Bool)
      → q.0 ≡ ok did
      → (added : List Row) × (rows_of q.1 ≡ before ++ added)
        × Recorded s domain allow (rows_of q.1) index migrations

  accepts_self :
      (index : ℕ) (checksum : List ℕ) → accepts s domain allow index checksum checksum ≡ true
  unfolding accepts
  accepts_self index checksum = rw (str_eq_self checksum)

  -- A new row for a migration keeps the rows numbered.
  IsNumbered-append :
      (rows : List Row) (row : Row)
      → row.1 ≡ length rows
      → IsNumbered rows
      → IsNumbered (rows ++ row ∷ [])
  IsNumbered-append rows row last numbered =
      All-append (λ r. r.1 < length (rows ++ row ∷ [])) rows (row ∷ [])
        (All-map (λ r. r.1 < length rows) (λ r. r.1 < length (rows ++ row ∷ [])) rows
          (λ r below. omega (arith, length-append rows (row ∷ []))) numbered)
        (omega (arith, length-append rows (row ∷ [])), tt)

  -- One more migration, of which the first is recorded where it should be.
  Wrote-cons :
      (before between : List Row) (index : ℕ) (m : Str) (ms : List Str)
      (q : Result Error Bool × s.Conn) (row : Row) (more : List Row)
      → between ≡ before ++ more
      → ((added : List Row) → get_elem? (between ++ added) index ≡ some row)
      → accepts s domain allow index row.2 (prepare_migration s m).1 ≡ true
      → Wrote between (suc index) ms q
      → Wrote before index (m ∷ ms) q
  Wrote-cons before between index m ms q row more grown stored accepted wrote did h =
      let (added, now, recorded) = wrote did h in
      (
        more ++ added,
        rw (now, grown) (append_assoc before more added),
        ((row, ap (λ rows. get_elem? rows index) now ∙ stored added, accepted), recorded),
      )

  -- A migration that is not recorded yet is run and recorded, and then the rest.
  fresh_row :
      (completed : List Row) (index : ℕ) (m : Str) (ms : List Str) (c : s.Conn) (extra : List Row)
      → MigrationsKeep s rows_of (m ∷ ms)
      → rows_of c ≡ completed ++ extra
      → (length completed ≤ index) × (length (rows_of c) ≡ index)
      → IsNumbered (rows_of c)
      → ((c2 : s.Conn) (extra2 : List Row)
          → MigrationsKeep s rows_of ms
          → rows_of c2 ≡ completed ++ extra2
          → length (rows_of c2) ≡ length completed + (suc index - length completed)
          → IsNumbered (rows_of c2)
          → Wrote
              (rows_of c2)
              (suc index)
              ms
              (run_migrations s domain allow completed (suc index) ms true c2))
      → Wrote (rows_of c) index (m ∷ ms) (
          (eager_exec s (prepare_migration s m).0
              >> (s.insert_completed (domain, index, (prepare_migration s m).1)
                  >> run_migrations s domain allow completed (suc index) ms true))
            c)
  fresh_row completed index m ms c extra keep known (short, count) numbered rest =
      let row : Row = (domain, index, (prepare_migration s m).1) in
      let loop = run_migrations s domain allow completed (suc index) ms true in
      let c1 = (eager_exec s (prepare_migration s m).0 c).1 in
      let same : rows_of c1 ≡ rows_of c =
        eager_exec-Keeps s rows_of (prepare_migration s m).0 keep.0 c in
      let numbered1 : All (λ r. r.1 < index) (rows_of c1) =
        rw same (subst (λ n. All (λ r. r.1 < n) (rows_of c)) count numbered) in
      bind_rule (eager_exec s (prepare_migration s m).0) (λ _. s.insert_completed row >> loop) c
        (Wrote (rows_of c) index (m ∷ ms))
        (λ _ _.
          bind_rule (s.insert_completed row) (λ _. loop) c1 (Wrote (rows_of c) index (m ∷ ms))
            (λ _ inserted.
              let grown : rows_of (s.insert_completed row c1).1 ≡ rows_of c ++ row ∷ [] =
                j.insert_ok domain index (prepare_migration s m).1 c1 numbered1 inserted
                ∙ ap (λ rows. rows ++ row ∷ []) same in
              Wrote-cons (rows_of c) (rows_of (s.insert_completed row c1).1) index m ms
                (loop (s.insert_completed row c1).1) row (row ∷ []) grown
                (λ added. rw grown (
                  rw (append_assoc (rows_of c) (row ∷ []) added) (
                    subst (λ n. get_elem? (rows_of c ++ row ∷ added) n ≡ some row) count
                      (get_elem?-length (rows_of c) row added))))
                (accepts_self index row.2)
                (rest (s.insert_completed row c1).1 (extra ++ row ∷ []) keep.1
                  (grown
                    ∙ ap (λ rows. rows ++ row ∷ []) known
                    ∙ append_assoc completed extra (row ∷ []))
                  (omega (arith, ap length grown, length-append (rows_of c) (row ∷ [])))
                  (rw grown (IsNumbered-append (rows_of c) row (sym count) numbered))))
            (λ e b h. cc))
        (λ e b h. cc)

  -- The loop, by what is recorded of the migration that is next.
  module _ (completed : List Row) (index : ℕ) (m : Str) (ms : List Str) (did : Bool)
      (c : s.Conn) where
    abbrev run : Result Error Bool × s.Conn
    run = run_migrations s domain allow completed index (m ∷ ms) did c

    run_fresh :
        get_elem? completed index ≡ none
        → run
          ≡ (eager_exec s (prepare_migration s m).0
                >> (s.insert_completed (domain, index, (prepare_migration s m).1)
                    >> run_migrations s domain allow completed (suc index) ms true))
              c
    unfolding run_migrations
    run_fresh fresh = rw (fresh, run_migrations)

    run_accepted :
        (row : Row)
        → get_elem? completed index ≡ some row
        → accepts s domain allow index row.2 (prepare_migration s m).1 ≡ true
        → run ≡ run_migrations s domain allow completed (suc index) ms did c
    unfolding run_migrations
    run_accepted row stored accepted = rw (stored, run_migrations, accepted)

    run_refused :
        (row : Row)
        → get_elem? completed index ≡ some row
        → accepts s domain allow index row.2 (prepare_migration s m).1 ≡ false
        → run ≡ (err (changed s domain allow index row.2 (prepare_migration s m).1), c)
    unfolding run_migrations
    run_refused row stored refused = rw (stored, run_migrations, refused)

  pub run_migrations-Wrote :
      (completed : List Row) (index : ℕ) (migrations : List Str) (did : Bool) (c : s.Conn)
      (extra : List Row)
      → MigrationsKeep s rows_of migrations
      → rows_of c ≡ completed ++ extra
      → length (rows_of c) ≡ length completed + (index - length completed)
      → IsNumbered (rows_of c)
      → Wrote
          (rows_of c)
          index
          migrations
          (run_migrations s domain allow completed index migrations did c)
  unfolding run_migrations
  run_migrations-Wrote completed index [] did c extra keep known count numbered =
      λ b h. ([], sym (append-nil (rows_of c)), tt)
  run_migrations-Wrote completed index (m ∷ ms) did c extra keep known count numbered =
      let P = λ (q : Result Error Bool × s.Conn). Wrote (rows_of c) index (m ∷ ms) q in
      elim (Option-cases (get_elem? completed index)) [
        | inl fresh ↦
            let short = length_of_none completed index fresh in
            subst P (sym (run_fresh completed index m ms did c fresh)) (
              fresh_row completed index m ms c extra keep known (short, omega arith) numbered
                (run_migrations-Wrote completed (suc index) ms true))
        | inr (row, stored) ↦
            elim (Bool-cases (accepts s domain allow index row.2 (prepare_migration s m).1)) [
              | inl accepted ↦
                  subst P (sym (run_accepted completed index m ms did c row stored accepted)) (
                    Wrote-cons (rows_of c) (rows_of c) index m ms
                      (run_migrations s domain allow completed (suc index) ms did c) row []
                      (sym (append-nil (rows_of c)))
                      (λ added. rw known (
                        rw (append_assoc completed extra added)
                          (get_elem?-append completed (extra ++ added) index stored)))
                      accepted
                      (run_migrations-Wrote completed (suc index) ms did c extra keep.1 known
                        (omega (arith, lt-length_of_get_elem? completed index stored)) numbered))
              | inr refused ↦
                  subst P (sym (run_refused completed index m ms did c row stored refused))
                    (λ b h. cc)
            ]
      ]
