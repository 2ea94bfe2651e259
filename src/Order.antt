-- ===== src/Order.antt =====
-- Total orders as a three-way comparison with its laws, and the order that Rust gives to texts,
-- vectors and iterators: element by element, a proper prefix first.
use Prim.Native.Nat.{compare, Ordering}
use zaku.Prelude.{Bool, any, ap, sym, ℕ, ◌≡◌, ◌↔◌, ◌⊎◌, inl, inr, refl, List, [], ◌∷◌, arith}
pub use Prim.Native.Nat.{Ordering}

abbrev pub reversed : Ordering → Ordering
reversed Ordering.lt = Ordering.gt
reversed Ordering.eq = Ordering.eq
reversed Ordering.gt = Ordering.lt

-- `Ordering::then_with`.
abbrev pub then_with : Ordering → Ordering → Ordering
then_with Ordering.lt o = Ordering.lt
then_with Ordering.eq o = o
then_with Ordering.gt o = Ordering.gt

pub Ordering-cases : (o : Ordering) → (o ≡ Ordering.lt) ⊎ (o ≡ Ordering.eq) ⊎ (o ≡ Ordering.gt)
Ordering-cases Ordering.lt = inl refl
Ordering-cases Ordering.eq = inr (inl refl)
Ordering-cases Ordering.gt = inr (inr refl)

pub record Order {ℓ} (A : Type ℓ) : Type ℓ where
  pub cmp : A → A → Ordering
  pub cmp_eq : (a b : A) → (cmp a b ≡ Ordering.eq) ↔ (a ≡ b)
  pub cmp_reversed : (a b : A) → cmp b a ≡ reversed (cmp a b)
  pub cmp_trans :
      (a b c : A) → cmp a b ≡ Ordering.lt → cmp b c ≡ Ordering.lt → cmp a c ≡ Ordering.lt

pub ℕ-cmp_eq : (a b : ℕ) → (compare a b ≡ Ordering.eq) ↔ (a ≡ b)
ℕ-cmp_eq a b = ground arith

pub ℕ-cmp_reversed : (a b : ℕ) → compare b a ≡ reversed (compare a b)
ℕ-cmp_reversed a b = ground arith

pub ℕ-cmp_trans :
    (a b c : ℕ) → compare a b ≡ Ordering.lt → compare b c ≡ Ordering.lt → compare a c ≡ Ordering.lt
ℕ-cmp_trans a b c h k = ground arith

abbrev pub ℕ_order : Order ℕ
ℕ_order = record {
  cmp = compare;
  cmp_eq = ℕ-cmp_eq;
  cmp_reversed = ℕ-cmp_reversed;
  cmp_trans = ℕ-cmp_trans;
}

module _ {ℓ} {A : Type ℓ} (o : Order A) where
  abbrev pub lexicographic : List A → List A → Ordering
  lexicographic [] [] = Ordering.eq
  lexicographic [] (y ∷ ys) = Ordering.lt
  lexicographic (x ∷ xs) [] = Ordering.gt
  lexicographic (x ∷ xs) (y ∷ ys) = then_with (o.cmp x y) (lexicographic xs ys)

  eq_of_lexicographic : (xs ys : List A) → lexicographic xs ys ≡ Ordering.eq → xs ≡ ys
  eq_of_lexicographic [] [] h = refl
  eq_of_lexicographic [] (y ∷ ys) h = cc
  eq_of_lexicographic (x ∷ xs) [] h = cc
  eq_of_lexicographic (x ∷ xs) (y ∷ ys) h = ground (arith, o.cmp_eq x y, eq_of_lexicographic xs ys)

  lexicographic_self : (xs : List A) → lexicographic xs xs ≡ Ordering.eq
  lexicographic_self [] = refl
  lexicographic_self (x ∷ xs) = ground (arith, o.cmp_eq x x, lexicographic_self xs)

  pub lexicographic-reversed :
      (xs ys : List A) → lexicographic ys xs ≡ reversed (lexicographic xs ys)
  lexicographic-reversed [] [] = refl
  lexicographic-reversed [] (y ∷ ys) = refl
  lexicographic-reversed (x ∷ xs) [] = refl
  lexicographic-reversed (x ∷ xs) (y ∷ ys) =
      ground (arith, o.cmp_reversed x y, lexicographic-reversed xs ys)

  pub lexicographic_trans :
      (xs ys zs : List A)
      → lexicographic xs ys ≡ Ordering.lt
      → lexicographic ys zs ≡ Ordering.lt
      → lexicographic xs zs ≡ Ordering.lt
  lexicographic_trans [] [] zs h k = cc
  lexicographic_trans [] (y ∷ ys) [] h k = cc
  lexicographic_trans [] (y ∷ ys) (z ∷ zs) h k = refl
  lexicographic_trans (x ∷ xs) [] zs h k = cc
  lexicographic_trans (x ∷ xs) (y ∷ ys) [] h k = cc
  lexicographic_trans (x ∷ xs) (y ∷ ys) (z ∷ zs) h k = ground (
    arith,
    o.cmp_eq x y,
    o.cmp_eq y z,
    o.cmp_eq x z,
    o.cmp_trans x y z,
    lexicographic_trans xs ys zs,
  )

  pub lexicographic_eq : (xs ys : List A) → (lexicographic xs ys ≡ Ordering.eq) ↔ (xs ≡ ys)
  lexicographic_eq xs ys = (eq_of_lexicographic xs ys, λ e. rw (← e) (lexicographic_self xs))

  abbrev pub list_order : Order (List A)
  list_order = record {
    cmp = lexicographic;
    cmp_eq = lexicographic_eq;
    cmp_reversed = lexicographic-reversed;
    cmp_trans = lexicographic_trans;
  }

-- The order of pairs, the first part first.
module _ {ℓ κ} {A : Type ℓ} {B : Type κ} (o : Order A) (q : Order B) where
  abbrev pair_cmp : A × B → A × B → Ordering
  pair_cmp a b = then_with (o.cmp a.0 b.0) (q.cmp a.1 b.1)

  pub pair_cmp_eq : (a b : A × B) → (pair_cmp a b ≡ Ordering.eq) ↔ (a ≡ b)
  pair_cmp_eq a b = ground (arith, o.cmp_eq a.0 b.0, q.cmp_eq a.1 b.1)

  pub pair_cmp-reversed : (a b : A × B) → pair_cmp b a ≡ reversed (pair_cmp a b)
  pair_cmp-reversed a b = ground (arith, o.cmp_reversed a.0 b.0, q.cmp_reversed a.1 b.1)

  pub pair_cmp_trans :
      (a b c : A × B)
      → pair_cmp a b ≡ Ordering.lt
      → pair_cmp b c ≡ Ordering.lt
      → pair_cmp a c ≡ Ordering.lt
  pair_cmp_trans a b c h k = ground (
    arith,
    o.cmp_eq a.0 b.0,
    o.cmp_eq b.0 c.0,
    o.cmp_eq a.0 c.0,
    o.cmp_trans a.0 b.0 c.0,
    q.cmp_trans a.1 b.1 c.1,
  )

  abbrev pub product_order : Order (A × B)
  product_order = record {
    cmp = pair_cmp;
    cmp_eq = pair_cmp_eq;
    cmp_reversed = pair_cmp-reversed;
    cmp_trans = pair_cmp_trans;
  }

-- The order of what is told apart by a key.
module _ {ℓ κ} {A : Type ℓ} {B : Type κ} (o : Order B) (key : A → B)
    (injective : (a b : A) → key a ≡ key b → a ≡ b) where
  pub key_cmp_eq : (a b : A) → (o.cmp (key a) (key b) ≡ Ordering.eq) ↔ (a ≡ b)
  key_cmp_eq a b = (
    λ h. injective a b ((o.cmp_eq (key a) (key b)).0 h),
    λ e. (o.cmp_eq (key a) (key b)).1 (ap key e),
  )

  abbrev pub pullback_order : Order A
  pullback_order = record {
    cmp = λ a b. o.cmp (key a) (key b);
    cmp_eq = key_cmp_eq;
    cmp_reversed = λ a b. o.cmp_reversed (key a) (key b);
    cmp_trans = λ a b c. o.cmp_trans (key a) (key b) (key c);
  }

-- The order the other way around.
module _ {ℓ} {A : Type ℓ} (o : Order A) where
  pub opposite_cmp_eq : (a b : A) → (o.cmp b a ≡ Ordering.eq) ↔ (a ≡ b)
  opposite_cmp_eq a b = (λ h. sym ((o.cmp_eq b a).0 h), λ e. (o.cmp_eq b a).1 (sym e))

  abbrev pub opposite_order : Order A
  opposite_order = record {
    cmp = λ a b. o.cmp b a;
    cmp_eq = opposite_cmp_eq;
    cmp_reversed = λ a b. o.cmp_reversed b a;
    cmp_trans = λ a b c h k. o.cmp_trans c b a k h;
  }

-- `slice::sort_by`, which is stable.
module _ {ℓ} {A : Type ℓ} (cmp : A → A → Ordering) where
  abbrev pub insert_by : A → List A → List A
  insert_by a [] = a ∷ []
  insert_by a (b ∷ bs) = elim (cmp a b) [ Ordering.gt ↦ b ∷ insert_by a bs | _ ↦ a ∷ b ∷ bs ]

  abbrev pub sort_by : List A → List A
  sort_by [] = []
  sort_by (a ∷ bs) = insert_by a (sort_by bs)

  any-insert_by : (p : A → Bool) (a : A) (bs : List A) → any p (insert_by a bs) ≡ any p (a ∷ bs)
  any-insert_by p a [] = refl
  any-insert_by p a (b ∷ bs) = ground (arith, any-insert_by p a bs)

  pub any-sort_by : (p : A → Bool) (bs : List A) → any p (sort_by bs) ≡ any p bs
  any-sort_by p [] = refl
  any-sort_by p (a ∷ bs) = ground (arith, any-insert_by p a (sort_by bs), any-sort_by p bs)
