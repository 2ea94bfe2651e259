-- ===== src/Prelude/Lists.antt =====
-- Lists measured by native numbers, tests over lists, and predicates on all elements.
use Prim.Native.Nat.{ℕ, zero, suc, ◌+◌, ◌<◌}
use mathlib.Core.Logic.{◌≢◌}
use mathlib.Core.Path.{◌≡◌, refl, ap, ◌∙◌}
use mathlib.Core.Bool.{Bool, false, ◌||◌}
use mathlib.Core.Option.{Option, none, some}
use mathlib.Core.List.{List, [], ◌∷◌, ◌++◌, reverse, reverse-cons}
use native.Mathlib.Omega.{arith}
use zaku.Prelude.Tests.{if◌then◌else◌}

module _ {ℓ} {A : Type ℓ} where
  abbrev pub length : List A → ℕ
  length [] = 0
  length (x ∷ xs) = suc (length xs)

  abbrev pub get_elem? : List A → ℕ → Option A
  get_elem? [] i = none
  get_elem? (x ∷ xs) zero = some x
  get_elem? (x ∷ xs) (suc i) = get_elem? xs i

  -- `Iterator::filter`.
  abbrev pub filter : (A → Bool) → List A → List A
  filter p [] = []
  filter p (x ∷ xs) = if p x then x ∷ filter p xs else filter p xs

  -- `Iterator::any`.
  abbrev pub any : (A → Bool) → List A → Bool
  any p [] = false
  any p (x ∷ xs) = p x || any p xs

  abbrev pub All {κ} : (A → Type κ) → List A → Type κ
  All P [] = Unit
  All P (x ∷ xs) = P x × All P xs

  pub length-append : (xs ys : List A) → length (xs ++ ys) ≡ length xs + length ys
  length-append [] ys = omega arith
  length-append (x ∷ xs) ys = omega (arith, length-append xs ys)

  pub All-append {κ} : (P : A → Type κ) (xs ys : List A) → All P xs → All P ys → All P (xs ++ ys)
  All-append P [] ys hx hy = hy
  All-append P (x ∷ xs) ys hx hy = (hx.0, All-append P xs ys hx.1 hy)

pub length-reverse {ℓ} : {A : Type ℓ} (xs : List A) → length (reverse xs) ≡ length xs
length-reverse [] = refl
length-reverse (x ∷ xs) =
    ap length (reverse-cons x xs)
    ∙ omega (arith, length-append (reverse xs) (x ∷ []), length-reverse xs)

module _ {ℓ κ} {A : Type ℓ} {B : Type κ} where
  -- `Iterator::filter_map`.
  abbrev pub filter_map : (A → Option B) → List A → List B
  filter_map f [] = []
  filter_map f (x ∷ xs) = elim (f x) [ some y ↦ y ∷ filter_map f xs | none ↦ filter_map f xs ]

  -- `Iterator::find_map`.
  abbrev pub find_map : (A → Option B) → List A → Option B
  find_map f [] = none
  find_map f (x ∷ xs) = elim (f x) [ some y ↦ some y | none ↦ find_map f xs ]

pub length-pos {ℓ} : {A : Type ℓ} (xs : List A) → xs ≢ [] → 0 < length xs
length-pos [] ne = absurd (ne refl)
length-pos (x ∷ xs) ne = omega arith

module _ {ℓ κ} {A : Type ℓ} {B : Type κ} (f : A → Option B) where
  pub filter_map-some :
      (x : A) (xs : List A) {y : B} → f x ≡ some y → filter_map f (x ∷ xs) ≡ y ∷ filter_map f xs
  filter_map-some x xs h = rw (filter_map, h)

  pub filter_map-none : (x : A) (xs : List A) → f x ≡ none → filter_map f (x ∷ xs) ≡ filter_map f xs
  filter_map-none x xs h = rw (filter_map, h)
