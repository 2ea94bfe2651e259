-- ===== src/Selections/Ranges.antt =====
-- crates/editor/src/selections_collection.rs: `select_ranges` inside `change_with`.
use zaku.Prelude.{
  ◌≡◌, refl, ap, ◌∙◌, ℕ, ◌+◌, Bool, true, false, none, some, List, [], ◌∷◌, map, All, All-map,
  length, arith, Bool-cases, inl, inr,
}
use zaku.Selections.Numbers.{Numbered, merged_selections-Numbered, merged_selections-ne}
use zaku.Selections.{Selection, merged_selections}
use zaku.Selections.Collection.{
  Buffer, SelectionsCollection, Mutable, is_empty_list, is_some, new_selection_id,
  selection_to_anchor_selection, set_disjoint, select, range_selection, range_selections,
  select_ranges, change_with,
}

module _ {Anchor Goal : Type 0} (buffer : Buffer Anchor Goal) where
  anchors-Numbered :
      (low high : ℕ) (selections : List (Selection ℕ Goal))
      → All (Numbered low high) selections
      → All (Numbered low high) (map (selection_to_anchor_selection buffer) selections)
  unfolding selection_to_anchor_selection
  anchors-Numbered low high [] all = tt
  anchors-Numbered low high (s ∷ ss) (h, all) = (h, anchors-Numbered low high ss all)

  -- The ranges take the numbers that come next.
  range_selections-Numbered :
      (ranges : List (ℕ × ℕ)) (m : Mutable Anchor Goal)
      → let (selections, m1) = range_selections buffer ranges m in
        (m1.collection.next_selection_id ≡ m.collection.next_selection_id + length ranges)
        × All (Numbered m.collection.next_selection_id m1.collection.next_selection_id) selections
  unfolding range_selections new_selection_id range_selection
  range_selections-Numbered [] m = (omega arith, tt)
  range_selections-Numbered (range ∷ ranges) m =
      let m1 = (new_selection_id buffer m).1 in
      let high = (range_selections buffer ranges m1).1.collection.next_selection_id in
      let (count, all) = range_selections-Numbered ranges m1 in
      (
        omega (arith, count),
        (
          (omega arith, omega (arith, count)),
          All-map (Numbered (m.collection.next_selection_id + 1) high)
              (Numbered m.collection.next_selection_id high) (range_selections buffer ranges m1).0
              (λ s h. (omega arith, h.1)) all,
        ),
      )

  -- What `select` leaves, where two lists of selections are the same only if they are equal.
  set_disjoint_lem :
      (new_disjoint : List (Selection Anchor Goal)) (m : Mutable Anchor Goal)
      → ((a b : List (Selection Anchor Goal)) → buffer.same_selections a b ≡ true → a ≡ b)
      → let c = (set_disjoint buffer new_disjoint m).collection in
        (c.disjoint ≡ new_disjoint)
        × (c.pending ≡ none)
        × (c.next_selection_id ≡ m.collection.next_selection_id)
  unfolding set_disjoint
  set_disjoint_lem new_disjoint m same =
      elim (Bool-cases (buffer.same_selections m.collection.disjoint new_disjoint)) [
        | inl equal ↦ elim (Bool-cases (is_some m.collection.pending)) [
          | inl had ↦ rw (equal, had) (refl, refl, refl)
          | inr had ↦ rw (equal, had) (same m.collection.disjoint new_disjoint equal, refl, refl)
        ]
        | inr other ↦ rw other (refl, refl, refl)
      ]

  map-ne :
      (selections : List (Selection ℕ Goal))
      → is_empty_list selections ≡ false
      → is_empty_list (map (selection_to_anchor_selection buffer) selections) ≡ false
  map-ne [] h = h
  map-ne (s ∷ ss) h = refl

  change_with_lem :
      (change : Mutable Anchor Goal → Mutable Anchor Goal)
      (collection : SelectionsCollection Anchor Goal)
      → let m = change (record { collection = collection; selections_changed = false }) in
        is_empty_list m.collection.disjoint ≡ false
        → change_with buffer change collection ≡ some (m.selections_changed, m.collection)
  unfolding change_with
  change_with_lem change collection h = rw h

  -- `select_ranges` with a range at least leaves a selection, so the assertion of `change_with` holds.
  -- Afterwards nothing is pending, the counter has gone on by the number of ranges, and every
  -- selection has a number that the call has given. The condition: two lists of selections are the
  -- same only if they are equal.
  pub change_with-select_ranges :
      (range : ℕ × ℕ) (ranges : List (ℕ × ℕ)) (collection : SelectionsCollection Anchor Goal)
      → ((a b : List (Selection Anchor Goal)) → buffer.same_selections a b ≡ true → a ≡ b)
      → (changed : Bool) × (after : SelectionsCollection Anchor Goal) × (change_with buffer
            (select_ranges buffer (range ∷ ranges))
            collection
          ≡ some (changed, after))
        × (after.pending ≡ none)
        × (after.next_selection_id ≡ collection.next_selection_id + length (range ∷ ranges))
        × All (Numbered collection.next_selection_id after.next_selection_id) after.disjoint
  unfolding select_ranges select
  change_with-select_ranges range ranges collection same =
      let m : Mutable Anchor Goal = record {
        collection = collection;
        selections_changed = false;
      } in
      let given = range_selections buffer (range ∷ ranges) m in
      let merged = merged_selections given.0 in
      let new_disjoint = map (selection_to_anchor_selection buffer) merged in
      let result = set_disjoint buffer new_disjoint given.1 in
      let (kept, cleared, number) = set_disjoint_lem new_disjoint given.1 same in
      let (count, all) = range_selections-Numbered (range ∷ ranges) m in
      let low = collection.next_selection_id in
      let high = given.1.collection.next_selection_id in
      (
        result.selections_changed,
        result.collection,
        change_with_lem (select_ranges buffer (range ∷ ranges)) collection (
            ap is_empty_list kept
            ∙ map-ne merged (
                merged_selections-ne (range_selection buffer low range)
                  (range_selections buffer ranges (new_selection_id buffer m).1).0)),
        cleared,
        number ∙ count,
        rw (kept, number)
            (anchors-Numbered low high merged (merged_selections-Numbered low high given.0 all)),
      )
