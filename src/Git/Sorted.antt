-- ===== src/Git/Sorted.antt =====
-- The sort of a report's entries, and the order that it is by.
use mathlib.Core.Path.{subst}
use zaku.Prelude.{
  ◌≡◌, ◌≢◌, ◌⊎◌, inl, inr, refl, sym, ap, ◌∙◌, Bool, ◌||◌, List, [], ◌∷◌, arith, All, any,
}
use zaku.Order.{Ordering, Ordering-cases, reversed}
use zaku.Text.{str_eq}
use zaku.RelPath.{RelPath, cmp, components, components_order}
use zaku.RelPath.Components.{join_components, IsNormal}
use zaku.Git.Report.{Entry, insert_sorted, sorted}

abbrev pub HasNormalPath : Entry → Type 0
HasNormalPath e = IsNormal e.0

-- The order of paths.
pub cmp_self : (p : RelPath) → cmp p p ≡ Ordering.eq
unfolding cmp
cmp_self p = (components_order.cmp_eq (components p) (components p)).1 refl

pub cmp_reversed : (p q : RelPath) → cmp q p ≡ reversed (cmp p q)
unfolding cmp
cmp_reversed p q = components_order.cmp_reversed (components p) (components q)

pub eq_of_cmp : (p q : RelPath) → IsNormal p → IsNormal q → cmp p q ≡ Ordering.eq → p ≡ q
unfolding cmp
eq_of_cmp p q h k e =
    sym h.joined
    ∙ ap join_components ((components_order.cmp_eq (components p) (components q)).0 e)
    ∙ k.joined

-- The relation of an entry with the first one of some entries.
abbrev pub Head : (Entry → Entry → Type 0) → Entry → List Entry → Type 0
Head R e [] = Unit
Head R e (f ∷ es) = R e f

abbrev pub Linked : (Entry → Entry → Type 0) → List Entry → Type 0
Linked R [] = Unit
Linked R (e ∷ es) = Head R e es × Linked R es

-- One path before another, and not behind it.
abbrev pub Before : Entry → Entry → Type 0
Before e f = cmp e.0 f.0 ≡ Ordering.lt

abbrev pub NotBehind : Entry → Entry → Type 0
NotBehind e f = cmp e.0 f.0 ≢ Ordering.gt

abbrev pub names_path : RelPath → List Entry → Bool
names_path p = any (λ e. str_eq p e.0)

insert_sorted-gt :
    (e f : Entry) (es : List Entry)
    → cmp e.0 f.0 ≡ Ordering.gt
    → insert_sorted e (f ∷ es) ≡ f ∷ insert_sorted e es
insert_sorted-gt e f es h = rw (insert_sorted, h)

pub insert_sorted-NotBehind :
    (e f : Entry) (es : List Entry) → NotBehind e f → insert_sorted e (f ∷ es) ≡ e ∷ f ∷ es
insert_sorted-NotBehind e f es h = elim (Ordering-cases (cmp e.0 f.0)) [
  | inl q ↦ rw (insert_sorted, q)
  | inr (inl q) ↦ rw (insert_sorted, q)
  | inr (inr q) ↦ absurd (h q)
]

NotBehind-cases : (e f : Entry) → NotBehind e f ⊎ (cmp e.0 f.0 ≡ Ordering.gt)
NotBehind-cases e f = elim (Ordering-cases (cmp e.0 f.0)) [
  | inl q ↦ inl (λ n. cc)
  | inr (inl q) ↦ inl (λ n. cc)
  | inr (inr q) ↦ inr q
]

NotBehind-of_gt : (e f : Entry) → cmp e.0 f.0 ≡ Ordering.gt → NotBehind f e
NotBehind-of_gt e f h n = cc (cmp_reversed e.0 f.0)

Head-insert_sorted :
    (d e : Entry) (es : List Entry)
    → NotBehind d e
    → Head NotBehind d es
    → Head NotBehind d (insert_sorted e es)
Head-insert_sorted d e [] h k = h
Head-insert_sorted d e (f ∷ es) h k = elim (NotBehind-cases e f) [
  | inl q ↦ subst (Head NotBehind d) (sym (insert_sorted-NotBehind e f es q)) h
  | inr q ↦ subst (Head NotBehind d) (sym (insert_sorted-gt e f es q)) k
]

Linked-insert_sorted :
    (e : Entry) (es : List Entry) → Linked NotBehind es → Linked NotBehind (insert_sorted e es)
Linked-insert_sorted e [] h = (tt, tt)
Linked-insert_sorted e (f ∷ es) h = elim (NotBehind-cases e f) [
  | inl q ↦ subst (Linked NotBehind) (sym (insert_sorted-NotBehind e f es q)) (q, h)
  | inr q ↦
      subst (Linked NotBehind) (sym (insert_sorted-gt e f es q))
        (Head-insert_sorted f e es (NotBehind-of_gt e f q) h.0, Linked-insert_sorted e es h.1)
]

pub Linked-sorted : (es : List Entry) → Linked NotBehind (sorted es)
unfolding sorted
Linked-sorted [] = tt
Linked-sorted (e ∷ es) = Linked-insert_sorted e (sorted es) (Linked-sorted es)

-- Sorting neither loses a path nor changes one.
All-insert_sorted :
    (e : Entry) (es : List Entry)
    → HasNormalPath e
    → All HasNormalPath es
    → All HasNormalPath (insert_sorted e es)
All-insert_sorted e [] h k = (h, tt)
All-insert_sorted e (f ∷ es) h k = elim (NotBehind-cases e f) [
  | inl q ↦ subst (All HasNormalPath) (sym (insert_sorted-NotBehind e f es q)) (h, k)
  | inr q ↦
      subst (All HasNormalPath) (sym (insert_sorted-gt e f es q))
        (k.0, All-insert_sorted e es h k.1)
]

pub All-sorted : (es : List Entry) → All HasNormalPath es → All HasNormalPath (sorted es)
unfolding sorted
All-sorted [] h = tt
All-sorted (e ∷ es) h = All-insert_sorted e (sorted es) h.0 (All-sorted es h.1)

swap_or : (a b c : Bool) → (a || (b || c)) ≡ (b || (a || c))
swap_or a b c = ground arith

names_path-insert_sorted :
    (p : RelPath) (e : Entry) (es : List Entry)
    → names_path p (insert_sorted e es) ≡ names_path p (e ∷ es)
names_path-insert_sorted p e [] = refl
names_path-insert_sorted p e (f ∷ es) = elim (NotBehind-cases e f) [
  | inl q ↦ ap (names_path p) (insert_sorted-NotBehind e f es q)
  | inr q ↦
      ap (names_path p) (insert_sorted-gt e f es q)
      ∙ ap (str_eq p f.0 ||◌) (names_path-insert_sorted p e es)
      ∙ swap_or (str_eq p f.0) (str_eq p e.0) (names_path p es)
]

pub names_path-sorted : (p : RelPath) (es : List Entry) → names_path p (sorted es) ≡ names_path p es
unfolding sorted
names_path-sorted p [] = refl
names_path-sorted p (e ∷ es) =
    names_path-insert_sorted p e (sorted es) ∙ ap (str_eq p e.0 ||◌) (names_path-sorted p es)
