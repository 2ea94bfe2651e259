-- ===== src/Prelude/Vecs.antt =====
-- `Vec::insert`, `Vec::remove` and `Iterator::position`, and what a read finds after them.
use Prim.Native.Nat.{ℕ, zero, suc, ◌≤◌, ◌<◌}
use mathlib.Core.Path.{◌≡◌, refl, ap}
use mathlib.Core.Bool.{Bool, true}
use mathlib.Core.Option.{Option, none, some}
use mathlib.Core.Option
use mathlib.Core.List.{List, [], ◌∷◌, ◌++◌}
use native.Mathlib.Omega.{arith}
use zaku.Prelude.Tests.{if◌then◌else◌, Option-cases}
use zaku.Prelude.Lists.{length, get_elem?}

module _ {ℓ} {A : Type ℓ} where
  -- An index past the end appends, where `Vec::insert` panics: the callers clamp it.
  abbrev pub insert_idx : List A → ℕ → A → List A
  insert_idx xs zero a = a ∷ xs
  insert_idx [] (suc i) a = a ∷ []
  insert_idx (x ∷ xs) (suc i) a = x ∷ insert_idx xs i a

  -- An index past the end removes nothing, where `Vec::remove` panics: the callers search it.
  abbrev pub erase_idx : List A → ℕ → List A
  erase_idx [] i = []
  erase_idx (x ∷ xs) zero = xs
  erase_idx (x ∷ xs) (suc i) = x ∷ erase_idx xs i

  abbrev pub position : (A → Bool) → List A → Option ℕ
  position p [] = none
  position p (x ∷ xs) = if p x then some zero else Option.map suc (position p xs)

  abbrev pub find : (A → Bool) → List A → Option A
  find p [] = none
  find p (x ∷ xs) = if p x then some x else find p xs

module _ {ℓ} {A : Type ℓ} where
  pub length-insert_idx :
      (xs : List A) (i : ℕ) (a : A) → length (insert_idx xs i a) ≡ suc (length xs)
  length-insert_idx xs zero a = refl
  length-insert_idx [] (suc i) a = refl
  length-insert_idx (x ∷ xs) (suc i) a = ap suc (length-insert_idx xs i a)

  pub length-erase_idx :
      (xs : List A) (i : ℕ) → i < length xs → suc (length (erase_idx xs i)) ≡ length xs
  length-erase_idx [] i h = absurd (omega arith)
  length-erase_idx (x ∷ xs) zero h = refl
  length-erase_idx (x ∷ xs) (suc i) h = ap suc (length-erase_idx xs i (omega arith))

  pub get_elem?-insert_idx_self :
      (xs : List A) (i : ℕ) (a : A) → i ≤ length xs → get_elem? (insert_idx xs i a) i ≡ some a
  get_elem?-insert_idx_self xs zero a h = refl
  get_elem?-insert_idx_self [] (suc i) a h = absurd (omega arith)
  get_elem?-insert_idx_self (x ∷ xs) (suc i) a h = get_elem?-insert_idx_self xs i a (omega arith)

  pub get_elem?-insert_idx_lt :
      (xs : List A) (i : ℕ) (a : A) (j : ℕ)
      → i ≤ length xs
      → j < i
      → get_elem? (insert_idx xs i a) j ≡ get_elem? xs j
  get_elem?-insert_idx_lt xs zero a j h k = absurd (omega arith)
  get_elem?-insert_idx_lt [] (suc i) a j h k = absurd (omega arith)
  get_elem?-insert_idx_lt (x ∷ xs) (suc i) a zero h k = refl
  get_elem?-insert_idx_lt (x ∷ xs) (suc i) a (suc j) h k =
      get_elem?-insert_idx_lt xs i a j (omega arith) (omega arith)

  pub get_elem?-insert_idx_le :
      (xs : List A) (i : ℕ) (a : A) (j : ℕ)
      → i ≤ length xs
      → i ≤ j
      → get_elem? (insert_idx xs i a) (suc j) ≡ get_elem? xs j
  get_elem?-insert_idx_le xs zero a j h k = refl
  get_elem?-insert_idx_le [] (suc i) a j h k = absurd (omega arith)
  get_elem?-insert_idx_le (x ∷ xs) (suc i) a zero h k = absurd (omega arith)
  get_elem?-insert_idx_le (x ∷ xs) (suc i) a (suc j) h k =
      get_elem?-insert_idx_le xs i a j (omega arith) (omega arith)

  pub get_elem?-erase_idx_lt :
      (xs : List A) (i j : ℕ) → j < i → get_elem? (erase_idx xs i) j ≡ get_elem? xs j
  get_elem?-erase_idx_lt [] i j h = refl
  get_elem?-erase_idx_lt (x ∷ xs) zero j h = absurd (omega arith)
  get_elem?-erase_idx_lt (x ∷ xs) (suc i) zero h = refl
  get_elem?-erase_idx_lt (x ∷ xs) (suc i) (suc j) h = get_elem?-erase_idx_lt xs i j (omega arith)

  pub get_elem?-erase_idx_le :
      (xs : List A) (i j : ℕ) → i ≤ j → get_elem? (erase_idx xs i) j ≡ get_elem? xs (suc j)
  get_elem?-erase_idx_le [] i j h = refl
  get_elem?-erase_idx_le (x ∷ xs) zero j h = refl
  get_elem?-erase_idx_le (x ∷ xs) (suc i) zero h = absurd (omega arith)
  get_elem?-erase_idx_le (x ∷ xs) (suc i) (suc j) h = get_elem?-erase_idx_le xs i j (omega arith)

  pub position-lt : (p : A → Bool) (xs : List A) (i : ℕ) → position p xs ≡ some i → i < length xs
  position-lt p [] i h = cc
  position-lt p (x ∷ xs) zero h = omega arith
  position-lt p (x ∷ xs) (suc i) h =
      ground (arith, Option-cases (position p xs), position-lt p xs i)

  -- The element at the position passes the test.
  pub get_elem?-position :
      (p : A → Bool) (xs : List A) (i : ℕ)
      → position p xs ≡ some i
      → (a : A) × (get_elem? xs i ≡ some a) × (p a ≡ true)
  get_elem?-position p [] i h = cc
  get_elem?-position p (x ∷ xs) zero h = (x, refl, ground (arith, Option-cases (position p xs)))
  get_elem?-position p (x ∷ xs) (suc i) h =
      get_elem?-position p xs i (ground (arith, Option-cases (position p xs)))

  pub get_elem?-none : (xs : List A) (i : ℕ) → length xs ≤ i → get_elem? xs i ≡ none
  get_elem?-none [] i h = refl
  get_elem?-none (x ∷ xs) zero h = absurd (omega arith)
  get_elem?-none (x ∷ xs) (suc i) h = get_elem?-none xs i (omega arith)

  pub lt-length_of_get_elem? :
      (xs : List A) (i : ℕ) {a : A} → get_elem? xs i ≡ some a → i < length xs
  lt-length_of_get_elem? [] i h = cc
  lt-length_of_get_elem? (x ∷ xs) zero h = omega arith
  lt-length_of_get_elem? (x ∷ xs) (suc i) h = omega (arith, lt-length_of_get_elem? xs i h)

  pub get_elem?-append :
      (xs ys : List A) (i : ℕ) {x : A} → get_elem? xs i ≡ some x → get_elem? (xs ++ ys) i ≡ some x
  get_elem?-append [] ys i h = cc
  get_elem?-append (x ∷ xs) ys zero h = h
  get_elem?-append (x ∷ xs) ys (suc i) h = get_elem?-append xs ys i h

  pub get_elem?-length :
      (xs : List A) (y : A) (ys : List A) → get_elem? (xs ++ y ∷ ys) (length xs) ≡ some y
  get_elem?-length [] y ys = refl
  get_elem?-length (x ∷ xs) y ys = get_elem?-length xs y ys

  pub length_of_none : (xs : List A) (i : ℕ) → get_elem? xs i ≡ none → length xs ≤ i
  length_of_none [] i h = omega arith
  length_of_none (x ∷ xs) zero h = cc
  length_of_none (x ∷ xs) (suc i) h = omega (arith, length_of_none xs i h)
