-- ===== src/Selections/Numbers.antt =====
-- crates/editor/src/selections_collection.rs: the numbers that `select` keeps.
use zaku.Prelude.{
  ◌≡◌, refl, ℕ, ◌≤◌, ◌<◌, true, false, List, [], ◌∷◌, map, All, arith, Bool-cases, inl, inr,
}
use zaku.Order.{sort_by, insert_by, Ordering}
use zaku.Selections.{
  Selection, ordered, by_start, merges, merge_into, merge_from, merge_sorted, merged_selections,
}
use zaku.Selections.Collection.{is_empty_list}

module _ {ℓ κ} {A : Type ℓ} (cmp : A → A → Ordering) (P : A → Type κ) where
  All-by :
      (o : Ordering) (xs ys : List A)
      → All P xs
      → All P ys
      → All P (elim o [ Ordering.gt ↦ xs | _ ↦ ys ])
  All-by Ordering.lt xs ys h k = k
  All-by Ordering.eq xs ys h k = k
  All-by Ordering.gt xs ys h k = h

  All-insert_by : (a : A) (xs : List A) → P a → All P xs → All P (insert_by cmp a xs)
  All-insert_by a [] h all = (h, tt)
  All-insert_by a (x ∷ xs) h (hx, all) =
      All-by (cmp a x) (x ∷ insert_by cmp a xs) (a ∷ x ∷ xs) (hx, All-insert_by a xs h all)
        (h, (hx, all))

  All-sort_by : (xs : List A) → All P xs → All P (sort_by cmp xs)
  All-sort_by [] all = tt
  All-sort_by (x ∷ xs) (h, all) = All-insert_by x (sort_by cmp xs) h (All-sort_by xs all)

module _ {Goal : Type 0} (low high : ℕ) where
  -- The number of a selection was given in between.
  abbrev pub Numbered : {P : Type 0} → Selection P Goal → Type 0
  Numbered s = (low ≤ s.id) × (s.id < high)

  merge_from-Numbered :
      (previous : Selection ℕ Goal) (selections : List (Selection ℕ Goal))
      → Numbered previous
      → All Numbered selections
      → All Numbered (merge_from previous selections)
  unfolding merge_from merge_into
  merge_from-Numbered previous [] h all = (h, tt)
  merge_from-Numbered previous (s ∷ ss) h (hs, all) = elim (Bool-cases (merges previous s true)) [
    | inl together ↦ rw together (merge_from-Numbered (merge_into previous s) ss h all)
    | inr apart ↦ rw apart (h, merge_from-Numbered s ss hs all)
  ]

  ordered-Numbered : (s : Selection ℕ Goal) → Numbered s → Numbered (ordered s)
  unfolding ordered
  ordered-Numbered s h = ground arith

  map-Numbered :
      (selections : List (Selection ℕ Goal))
      → All Numbered selections
      → All Numbered (map ordered selections)
  map-Numbered [] all = tt
  map-Numbered (s ∷ ss) (h, all) = (ordered-Numbered s h, map-Numbered ss all)

  merge_sorted-Numbered :
      (selections : List (Selection ℕ Goal))
      → All Numbered selections
      → All Numbered (merge_sorted selections)
  unfolding merge_sorted
  merge_sorted-Numbered [] all = tt
  merge_sorted-Numbered (s ∷ ss) (h, all) = merge_from-Numbered s ss h all

  pub merged_selections-Numbered :
      (selections : List (Selection ℕ Goal))
      → All Numbered selections
      → All Numbered (merged_selections selections)
  unfolding merged_selections
  merged_selections-Numbered selections all =
      merge_sorted-Numbered (sort_by by_start (map ordered selections))
        (All-sort_by by_start Numbered (map ordered selections) (map-Numbered selections all))

module _ {Goal : Type 0} where
  merge_from-ne :
      (s : Selection ℕ Goal) (ss : List (Selection ℕ Goal))
      → is_empty_list (merge_from s ss) ≡ false
  unfolding merge_from
  merge_from-ne s [] = refl
  merge_from-ne s (t ∷ ts) = ground (arith, merge_from-ne (merge_into s t) ts)

  insert_by-ne :
      (s : Selection ℕ Goal) (ss : List (Selection ℕ Goal))
      → is_empty_list (insert_by by_start s ss) ≡ false
  insert_by-ne s [] = refl
  insert_by-ne s (t ∷ ts) = ground arith

  merge_sorted-ne :
      (ss : List (Selection ℕ Goal))
      → is_empty_list ss ≡ false
      → is_empty_list (merge_sorted ss) ≡ false
  unfolding merge_sorted
  merge_sorted-ne [] h = h
  merge_sorted-ne (s ∷ ss) h = merge_from-ne s ss

  pub merged_selections-ne :
      (s : Selection ℕ Goal) (ss : List (Selection ℕ Goal))
      → is_empty_list (merged_selections (s ∷ ss)) ≡ false
  unfolding merged_selections
  merged_selections-ne s ss =
      merge_sorted-ne (sort_by by_start (map ordered (s ∷ ss)))
        (insert_by-ne (ordered s) (sort_by by_start (map ordered ss)))
