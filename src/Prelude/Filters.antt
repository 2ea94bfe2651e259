-- ===== src/Prelude/Filters.antt =====
-- `filter` and `any`: how they combine, and what depends on the elements only.
use Prim.Native.Nat.{ℕ, zero, suc}
use mathlib.Core.Path.{◌≡◌, refl}
use mathlib.Core.Bool.{Bool, true, ◌&&◌}
use mathlib.Core.Option.{some}
use mathlib.Core.List.{List, [], ◌∷◌}
use native.Mathlib.Omega.{arith}
use zaku.Prelude.Tests.{if-both}
use zaku.Prelude.Lists.{get_elem?, filter, any, All}

module _ {ℓ} {A : Type ℓ} where
  pub filter-filter :
      (p q : A → Bool) (xs : List A) → filter q (filter p xs) ≡ filter (λ x. p x && q x) xs
  filter-filter p q [] = refl
  filter-filter p q (x ∷ xs) = ground (arith, filter-filter p q xs)

  pub filter_congr :
      (p q : A → Bool) (xs : List A) → All (λ x. p x ≡ q x) xs → filter p xs ≡ filter q xs
  filter_congr p q [] h = refl
  filter_congr p q (x ∷ xs) h = rw (h.0, filter_congr p q xs h.1)

  pub filter-All : (p : A → Bool) (xs : List A) → All (λ x. p x ≡ true) xs → filter p xs ≡ xs
  filter-All p [] h = refl
  filter-All p (x ∷ xs) h = rw (h.0, filter-All p xs h.1)

  pub any-filter : (p q : A → Bool) (xs : List A) → any q (filter p xs) ≡ any (λ x. p x && q x) xs
  any-filter p q [] = refl
  any-filter p q (x ∷ xs) = ground (arith, any-filter p q xs)

  pub any_congr : (p q : A → Bool) (xs : List A) → ((x : A) → p x ≡ q x) → any p xs ≡ any q xs
  any_congr p q [] h = refl
  any_congr p q (x ∷ xs) h = rw (h x, any_congr p q xs h)

  pub any-and : (p : A → Bool) (b : Bool) (xs : List A) → any (λ x. p x && b) xs ≡ (any p xs && b)
  any-and p b [] = refl
  any-and p b (x ∷ xs) = ground (arith, any-and p b xs)

  pub any_of_get_elem? :
      (p : A → Bool) (xs : List A) (i : ℕ) {x : A}
      → get_elem? xs i ≡ some x
      → p x ≡ true
      → any p xs ≡ true
  any_of_get_elem? p [] i h k = cc
  any_of_get_elem? p (x ∷ xs) zero h k = ground arith
  any_of_get_elem? p (x ∷ xs) (suc i) h k = ground (arith, any_of_get_elem? p xs i h k)

  pub All-always {κ} : (P : A → Type κ) (xs : List A) → ((x : A) → P x) → All P xs
  All-always P [] h = tt
  All-always P (x ∷ xs) h = (h x, All-always P xs h)

  pub All-map {κ μ} :
      (P : A → Type κ) (Q : A → Type μ) (xs : List A) → ((x : A) → P x → Q x) → All P xs → All Q xs
  All-map P Q [] h a = tt
  All-map P Q (x ∷ xs) h a = (h x a.0, All-map P Q xs h a.1)

  pub All-filter {κ} :
      (P : A → Type κ) (p : A → Bool) (xs : List A) → All P xs → All P (filter p xs)
  All-filter P p [] a = tt
  All-filter P p (x ∷ xs) a =
      if-both (All P) (p x) (a.0, All-filter P p xs a.1) (All-filter P p xs a.1)
