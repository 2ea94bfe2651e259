-- ===== src/Sql/Newlines.antt =====
-- crates/sql/src/migrations.rs: the text whose checksum is stored does not depend on the line ends
-- of the file that the migration was written in.
use zaku.Prelude.{
  ◌≡◌, refl, sym, ap, ◌∙◌, ℕ, false, [], ◌∷◌, Bool-cases, inl, inr, ◌==◌, ==_iff, if◌then◌else◌,
  arith,
}
use zaku.Text.{Str, contains}
use zaku.Text.Trim.{is_whitespace, trim_start, trimmed_onto, trim_end, trim}
use zaku.Sql.Migrations.{unify_newlines, normalize_migration}

-- The same text with "\r\n" for each line end.
abbrev pub with_crlf : Str → Str
with_crlf [] = []
with_crlf (c ∷ s) = let rest = with_crlf s in if c == 10 then 13 ∷ 10 ∷ rest else c ∷ rest

unify_newlines-cons :
    (c : ℕ) (s : Str) → (c == 13) ≡ false → unify_newlines (c ∷ s) ≡ c ∷ unify_newlines s
unfolding unify_newlines
unify_newlines-cons c [] h = rw h
unify_newlines-cons c (d ∷ s) h = rw h

-- A text with no "\r" is passed on as it is, which the fast path relies on.
unify_newlines-unchanged : (s : Str) → contains 13 s ≡ false → unify_newlines s ≡ s
unfolding unify_newlines
unify_newlines-unchanged [] h = refl
unify_newlines-unchanged (c ∷ s) h =
    unify_newlines-cons c s (ground arith) ∙ ap (c ∷◌) (unify_newlines-unchanged s (ground arith))

-- The fast path is the slow one: a migration is trimmed, and its line ends become "\n".
normalize_migration_lem : (s : Str) → normalize_migration s ≡ unify_newlines (trim s)
unfolding normalize_migration
normalize_migration_lem s = elim (Bool-cases (contains 13 (trim s))) [
  | inl some_cr ↦ rw some_cr
  | inr no_cr ↦ rw no_cr (sym (unify_newlines-unchanged (trim s) no_cr))
]

unify_newlines-crlf : (s : Str) → contains 13 s ≡ false → unify_newlines (with_crlf s) ≡ s
unfolding unify_newlines
unify_newlines-crlf [] h = refl
unify_newlines-crlf (c ∷ s) h = elim (Bool-cases (c == 10)) [
  | inl newline ↦ rw newline (ground (arith, unify_newlines-crlf s))
  | inr other ↦ rw other (
      unify_newlines-cons c (with_crlf s) (ground arith)
      ∙ ap (c ∷◌) (unify_newlines-crlf s (ground arith)))
]

trim_start-crlf : (s : Str) → trim_start (with_crlf s) ≡ with_crlf (trim_start s)
unfolding trim_start is_whitespace
trim_start-crlf [] = refl
trim_start-crlf (c ∷ s) = ground (arith, trim_start-crlf s)

-- A line end, and any other character, before a text whose end is trimmed already.
trimmed_newline-crlf :
    (s : Str) → trimmed_onto 13 (trimmed_onto 10 (with_crlf s)) ≡ with_crlf (trimmed_onto 10 s)
unfolding is_whitespace
trimmed_newline-crlf [] = refl
trimmed_newline-crlf (d ∷ s) = ground arith

trimmed_onto-crlf :
    (c : ℕ) (s : Str)
    → (c == 10) ≡ false
    → trimmed_onto c (with_crlf s) ≡ with_crlf (trimmed_onto c s)
trimmed_onto-crlf c [] h = ground arith
trimmed_onto-crlf c (d ∷ s) h = ground arith

trim_end-crlf : (s : Str) → trim_end (with_crlf s) ≡ with_crlf (trim_end s)
unfolding trim_end
trim_end-crlf [] = refl
trim_end-crlf (c ∷ s) = elim (Bool-cases (c == 10)) [
  | inl newline ↦ rw ((==_iff c 10).0 newline, trim_end-crlf s) (trimmed_newline-crlf (trim_end s))
  | inr other ↦ rw (other, trim_end-crlf s) (trimmed_onto-crlf c (trim_end s) other)
]

contains-trim_start : (s : Str) → contains 13 s ≡ false → contains 13 (trim_start s) ≡ false
unfolding trim_start
contains-trim_start [] h = refl
contains-trim_start (c ∷ s) h = ground (arith, contains-trim_start s)

contains-trimmed_onto :
    (c : ℕ) (s : Str) → contains 13 (c ∷ s) ≡ false → contains 13 (trimmed_onto c s) ≡ false
contains-trimmed_onto c [] h = ground arith
contains-trimmed_onto c (d ∷ s) h = h

contains-trim_end : (s : Str) → contains 13 s ≡ false → contains 13 (trim_end s) ≡ false
unfolding trim_end
contains-trim_end [] h = refl
contains-trim_end (c ∷ s) h =
    contains-trimmed_onto c (trim_end s) (ground (arith, contains-trim_end s))

-- The text that is checked and run is the same whether the file of the migration ends its lines
-- with "\n" or with "\r\n".
pub normalize_migration-crlf :
    (s : Str) → contains 13 s ≡ false → normalize_migration (with_crlf s) ≡ normalize_migration s
unfolding trim
normalize_migration-crlf s h =
    let trimmed : contains 13 (trim s) ≡ false =
      contains-trim_end (trim_start s) (contains-trim_start s h) in
    normalize_migration_lem (with_crlf s)
    ∙ ap unify_newlines (ap trim_end (trim_start-crlf s) ∙ trim_end-crlf (trim_start s))
    ∙ unify_newlines-crlf (trim s) trimmed
    ∙ sym (unify_newlines-unchanged (trim s) trimmed)
    ∙ sym (normalize_migration_lem s)
