-- ===== src/Pane/Unique.antt =====
-- `add_item`: a pane shows no item, and no project entry alone, in two tabs.
use zaku.Prelude.{
  ℕ, zero, suc, ◌≡◌, ◌⊎◌, ◌∙◌, refl, sym, ap, Bool, Bool-cases, true, false, Option, Option-cases,
  none, some, List, [], ◌∷◌, ◌==◌, ==_iff, ==_self, if◌then◌else◌, All, inl, inr, arith, insert_idx,
  erase_idx, position,
}
use mathlib.Core.Path.{subst}
use zaku.Pane.{Item, opt_eq, is_singleton, first}
use zaku.Pane.Kept.{position-zero, position-suc}
use zaku.Pane.Add.{entry_of, is_existing}

false_of_none :
    (p : Item → Bool) (x : Item) (xs : List Item) → position p (x ∷ xs) ≡ none → p x ≡ false
false_of_none p x xs h = ground (arith, Option-cases (position p xs))

none_of_none :
    (p : Item → Bool) (x : Item) (xs : List Item)
    → position p (x ∷ xs) ≡ none
    → position p xs ≡ none
none_of_none p x xs h = ground (arith, Option-cases (position p xs))

-- The two ways in which two tabs are one.
SameEntry : Item → Item → Type 0
SameEntry x y = (k : ℕ) × (entry_of x ≡ some k) × (entry_of y ≡ some k)

abbrev meets : Option ℕ → Option ℕ → Bool
meets none a = false
meets (some id) a = opt_eq (some id) a

some_of_meets : (a b : Option ℕ) → meets b a ≡ true → (k : ℕ) × (a ≡ some k) × (b ≡ some k)
some_of_meets none none h = cc
some_of_meets (some k) none h = cc
some_of_meets none (some l) h = cc
some_of_meets (some k) (some l) h = (k, refl, ap some ((==_iff l k).0 h))

is_existing-meets :
    (x y : Item)
    → is_existing x y ≡ (if y.item_id == x.item_id then true else meets (entry_of y) (entry_of x))
is_existing-meets x y = elim (Bool-cases (is_singleton y.buffer_kind)) [
  | inl h ↦ elim (Option-cases (first y.project_entry_ids)) [
    | inl e ↦ rw (h, e)
    | inr (k, e) ↦ rw (h, e)
  ]
  | inr h ↦ rw h
]

same_of_is_existing :
    (x y : Item) → is_existing x y ≡ true → (y.item_id ≡ x.item_id) ⊎ SameEntry x y
unfolding SameEntry
same_of_is_existing x y h = elim (Bool-cases (y.item_id == x.item_id)) [
  | inl e ↦ inl ((==_iff y.item_id x.item_id).0 e)
  | inr e ↦
      let m : (if y.item_id == x.item_id then true else meets (entry_of y) (entry_of x)) ≡ true =
        sym (is_existing-meets x y) ∙ h in
      inr (some_of_meets (entry_of x) (entry_of y) (rw e at m))
]

pub is_existing_of_id : (x y : Item) → y.item_id ≡ x.item_id → is_existing x y ≡ true
is_existing_of_id x y h = ground arith

is_existing_of_entry : (x y : Item) → SameEntry x y → is_existing x y ≡ true
unfolding SameEntry
is_existing_of_entry x y (k, h, l) =
    is_existing-meets x y
    ∙ elim (Bool-cases (y.item_id == x.item_id)) [ inl e ↦ rw e | inr e ↦ rw (e, l, h, ==_self k) ]

is_existing_comm : (x y : Item) → is_existing x y ≡ true → is_existing y x ≡ true
unfolding SameEntry
is_existing_comm x y h = elim (same_of_is_existing x y h) [
  | inl e ↦ is_existing_of_id y x (sym e)
  | inr (k, a, b) ↦ is_existing_of_entry y x (k, b, a)
]

pub false_of : (b c : Bool) → (b ≡ true → c ≡ true) → c ≡ false → b ≡ false
false_of true c f h = sym (f refl) ∙ h
false_of false c f h = refl

-- A tab of the item's id is a tab of the item as it is.
abbrev pub IsItself : Item → Item → Type 0
IsItself item y = y.item_id ≡ item.item_id → y ≡ item

-- What the item takes the place of, it shares with no other tab.
is_existing_trans :
    (item e y : Item)
    → IsItself item e
    → IsItself item y
    → is_existing item e ≡ true
    → is_existing item y ≡ true
    → is_existing e y ≡ true
unfolding SameEntry
is_existing_trans item e y se sy h k = elim (same_of_is_existing item e h) [
  | inl p ↦ subst (λ z. is_existing z y ≡ true) (sym (se p)) k
  | inr (a, ia, ea) ↦ elim (same_of_is_existing item y k) [
    | inl q ↦ subst (λ z. is_existing e z ≡ true) (sym (sy q)) (is_existing_comm item e h)
    | inr (b, ib, yb) ↦ is_existing_of_entry e y (a, ea, yb ∙ sym ib ∙ ia)
  ]
]

-- No two tabs show one item, and no two tabs show one project entry alone.
abbrev pub NoDuplicates : List Item → Type 0
NoDuplicates [] = Unit
NoDuplicates (x ∷ xs) = All (λ y. is_existing x y ≡ false) xs × NoDuplicates xs

-- The item has no tab among these.
abbrev pub IsNew : Item → List Item → Type 0
IsNew item = All (λ y. is_existing item y ≡ false)

pub IsNew-of_position :
    (item : Item) (xs : List Item) → position (is_existing item) xs ≡ none → IsNew item xs
IsNew-of_position item [] h = tt
IsNew-of_position item (x ∷ xs) h = (
  false_of_none (is_existing item) x xs h,
  IsNew-of_position item xs (none_of_none (is_existing item) x xs h),
)

All-insert_idx :
    (P : Item → Type 0) (xs : List Item) (i : ℕ) (x : Item)
    → P x
    → All P xs
    → All P (insert_idx xs i x)
All-insert_idx P xs zero x p a = (p, a)
All-insert_idx P [] (suc i) x p a = (p, tt)
All-insert_idx P (y ∷ xs) (suc i) x p a = (a.0, All-insert_idx P xs i x p a.1)

All-erase_idx : (P : Item → Type 0) (xs : List Item) (i : ℕ) → All P xs → All P (erase_idx xs i)
All-erase_idx P [] i a = tt
All-erase_idx P (y ∷ xs) zero a = a.1
All-erase_idx P (y ∷ xs) (suc i) a = (a.0, All-erase_idx P xs i a.1)

pub insert_idx-NoDuplicates :
    (item : Item) (xs : List Item) (i : ℕ)
    → IsNew item xs
    → NoDuplicates xs
    → NoDuplicates (insert_idx xs i item)
insert_idx-NoDuplicates item xs zero n d = (n, d)
insert_idx-NoDuplicates item [] (suc i) n d = (tt, tt)
insert_idx-NoDuplicates item (x ∷ xs) (suc i) n d = (
  All-insert_idx _ xs i item (false_of _ _ (is_existing_comm x item) n.0) d.0,
  insert_idx-NoDuplicates item xs i n.1 d.1,
)

pub erase_idx-NoDuplicates :
    (xs : List Item) (i : ℕ) → NoDuplicates xs → NoDuplicates (erase_idx xs i)
erase_idx-NoDuplicates [] i d = tt
erase_idx-NoDuplicates (x ∷ xs) zero d = d.1
erase_idx-NoDuplicates (x ∷ xs) (suc i) d =
    (All-erase_idx _ xs i d.0, erase_idx-NoDuplicates xs i d.1)

-- Without the tab that the item takes the place of, it has none.
All-both :
    (P Q R : Item → Type 0) (xs : List Item)
    → ((y : Item) → P y → Q y → R y)
    → All P xs
    → All Q xs
    → All R xs
All-both P Q R [] f a b = tt
All-both P Q R (y ∷ xs) f a b = (f y a.0 b.0, All-both P Q R xs f a.1 b.1)

pub IsNew-erase_idx :
    (item : Item) (xs : List Item) (i : ℕ)
    → All (IsItself item) xs
    → NoDuplicates xs
    → position (is_existing item) xs ≡ some i
    → IsNew item (erase_idx xs i)
IsNew-erase_idx item [] i s d h = tt
IsNew-erase_idx item (x ∷ xs) zero s d h =
    All-both _ _ _ xs
      (λ y sy n.
        false_of _ _ (is_existing_trans item x y s.0 sy (position-zero (is_existing item) x xs h))
          n)
      s.1 d.0
IsNew-erase_idx item (x ∷ xs) (suc i) s d h =
    let e = position-suc (is_existing item) x xs i h in (e.0, IsNew-erase_idx item xs i s.1 d.1 e.1)
