-- ===== src/Selections/Merged.antt =====
-- crates/editor/src/selections_collection.rs: `select` leaves disjoint selections of the same text.
use zaku.Prelude.{
  ◌≡◌, refl, ap, ◌∙◌, ℕ, ◌≤◌, Bool, true, false, ◌&&◌, ◌||◌, Option, none, some, List, [], ◌∷◌, map,
  any, leb, All, arith, Bool-cases, inl, inr, or_assoc,
}
use zaku.Order.{sort_by, insert_by, any-sort_by}
use zaku.Selections.{
  Selection, should_merge, ordered, by_start, merges, merge_into, merge_from, merge_sorted,
  merged_selections,
}
use zaku.Selections.Disjoint.{Apart, Follows, IsDisjointAfter, IsDisjoint, covers, covered}

module _ {Goal : Type 0} where
  -- In order of their starts, each with its ends in order.
  abbrev pub IsSortedFrom : ℕ → List (Selection ℕ Goal) → Type 0
  IsSortedFrom start [] = Unit
  IsSortedFrom start (selection ∷ selections) =
      (start ≤ selection.start)
      × (selection.start ≤ selection.end)
      × IsSortedFrom selection.start selections

  merge_into-Follows :
      (before : Option (Selection ℕ Goal)) (previous selection : Selection ℕ Goal)
      → previous.start ≤ previous.end
      → previous.start ≤ selection.start
      → selection.start ≤ selection.end
      → Follows before previous
      → Follows before (merge_into previous selection)
  unfolding merge_into
  merge_into-Follows none previous selection h1 h2 h3 f = tt
  merge_into-Follows (some b) previous selection h1 h2 h3 f = ground arith

  merge_into-ordered :
      (previous selection : Selection ℕ Goal)
      → previous.start ≤ previous.end
      → selection.start ≤ selection.end
      → (merge_into previous selection).start ≤ (merge_into previous selection).end
  unfolding merge_into
  merge_into-ordered previous selection h1 h2 = omega arith

  merge_into-start :
      (previous selection : Selection ℕ Goal)
      → (merge_into previous selection).start ≤ selection.start
  unfolding merge_into
  merge_into-start previous selection = omega arith

  IsSortedFrom-le :
      (from lower : ℕ) (selections : List (Selection ℕ Goal))
      → lower ≤ from
      → IsSortedFrom from selections
      → IsSortedFrom lower selections
  IsSortedFrom-le from lower [] h sorted = tt
  IsSortedFrom-le from lower (s ∷ ss) h (start, own, rest) = (omega arith, own, rest)

  not_merged-Apart :
      (previous selection : Selection ℕ Goal)
      → previous.start ≤ previous.end
      → previous.start ≤ selection.start
      → selection.start ≤ selection.end
      → merges previous selection true ≡ false
      → Apart previous selection
  unfolding should_merge
  not_merged-Apart previous selection h1 h2 h3 h = ground arith

  merge_from-IsDisjoint :
      (before : Option (Selection ℕ Goal)) (previous : Selection ℕ Goal)
      (selections : List (Selection ℕ Goal))
      → previous.start ≤ previous.end
      → Follows before previous
      → IsSortedFrom previous.start selections
      → IsDisjointAfter before (merge_from previous selections)
  unfolding merge_from
  merge_from-IsDisjoint before previous [] h f sorted = (h, f, tt)
  merge_from-IsDisjoint before previous (s ∷ ss) h f (from, own, sorted) =
      elim (Bool-cases (merges previous s true)) [
        | inl together ↦ rw together (
            merge_from-IsDisjoint before (merge_into previous s) ss
              (merge_into-ordered previous s h own)
              (merge_into-Follows before previous s h from own f)
              (IsSortedFrom-le s.start (merge_into previous s).start ss
                (merge_into-start previous s) sorted))
        | inr apart ↦ rw apart (
          h,
          f,
          merge_from-IsDisjoint (some previous) s ss own
              (not_merged-Apart previous s h from own apart) sorted,
        )
      ]

  merge_into-covers :
      (offset : ℕ) (previous selection : Selection ℕ Goal)
      → previous.start ≤ previous.end
      → previous.start ≤ selection.start
      → selection.start ≤ selection.end
      → merges previous selection true ≡ true
      → covers offset (merge_into previous selection)
        ≡ (covers offset previous || covers offset selection)
  unfolding merge_into should_merge
  merge_into-covers offset previous selection h1 h2 h3 h = ground arith

  merge_from-covered :
      (offset : ℕ) (previous : Selection ℕ Goal) (selections : List (Selection ℕ Goal))
      → previous.start ≤ previous.end
      → IsSortedFrom previous.start selections
      → covered offset (merge_from previous selections) ≡ covered offset (previous ∷ selections)
  unfolding merge_from
  merge_from-covered offset previous [] h sorted = refl
  merge_from-covered offset previous (s ∷ ss) h (from, own, sorted) =
      elim (Bool-cases (merges previous s true)) [
        | inl together ↦ rw together (
            merge_from-covered offset (merge_into previous s) ss
              (merge_into-ordered previous s h own)
              (IsSortedFrom-le s.start (merge_into previous s).start ss
                (merge_into-start previous s) sorted)
            ∙ rw (merge_into-covers offset previous s h from own together)
                (or_assoc (covers offset previous) (covers offset s) (covered offset ss)))
        | inr apart ↦
            rw apart (ap (covers offset previous ||◌) (merge_from-covered offset s ss own sorted))
      ]

  insert_by-IsSortedFrom :
      (lower : ℕ) (selection : Selection ℕ Goal) (selections : List (Selection ℕ Goal))
      → lower ≤ selection.start
      → selection.start ≤ selection.end
      → IsSortedFrom lower selections
      → IsSortedFrom lower (insert_by by_start selection selections)
  insert_by-IsSortedFrom lower a [] h own sorted = (h, own, tt)
  insert_by-IsSortedFrom lower a (b ∷ bs) h own (from, its, sorted) =
      ground (arith, insert_by-IsSortedFrom b.start a bs)

  sort_by-IsSortedFrom :
      (selections : List (Selection ℕ Goal))
      → All (λ s. s.start ≤ s.end) selections
      → IsSortedFrom 0 (sort_by by_start selections)
  sort_by-IsSortedFrom [] h = tt
  sort_by-IsSortedFrom (s ∷ ss) h =
      insert_by-IsSortedFrom 0 s (sort_by by_start ss) (omega arith) h.0
        (sort_by-IsSortedFrom ss h.1)

  ordered_lem : (selection : Selection ℕ Goal) → (ordered selection).start ≤ (ordered selection).end
  unfolding ordered
  ordered_lem selection = ground arith

  map-ordered :
      (selections : List (Selection ℕ Goal)) → All (λ s. s.start ≤ s.end) (map ordered selections)
  map-ordered [] = tt
  map-ordered (s ∷ ss) = (ordered_lem s, map-ordered ss)

  -- An offset lies between the ends of a selection, whichever comes first.
  abbrev pub between : ℕ → Selection ℕ Goal → Bool
  between offset selection =
      covers offset selection || leb selection.end offset && leb offset selection.start

  ordered-covers :
      (offset : ℕ) (selection : Selection ℕ Goal)
      → covers offset (ordered selection) ≡ between offset selection
  unfolding ordered
  ordered-covers offset selection = ground arith

  any-ordered :
      (offset : ℕ) (selections : List (Selection ℕ Goal))
      → covered offset (map ordered selections) ≡ any (between offset) selections
  any-ordered offset [] = refl
  any-ordered offset (s ∷ ss) = rw (ordered-covers offset s, any-ordered offset ss)

  merge_sorted-IsDisjoint :
      (selections : List (Selection ℕ Goal))
      → IsSortedFrom 0 selections
      → IsDisjoint (merge_sorted selections)
  unfolding merge_sorted
  merge_sorted-IsDisjoint [] h = tt
  merge_sorted-IsDisjoint (s ∷ ss) (_, own, sorted) = merge_from-IsDisjoint none s ss own tt sorted

  merge_sorted-covered :
      (offset : ℕ) (selections : List (Selection ℕ Goal))
      → IsSortedFrom 0 selections
      → covered offset (merge_sorted selections) ≡ covered offset selections
  unfolding merge_sorted
  merge_sorted-covered offset [] h = refl
  merge_sorted-covered offset (s ∷ ss) (_, own, sorted) = merge_from-covered offset s ss own sorted

  -- Whatever selections `select` is given, in any order and with their ends in any order, those that
  -- it keeps are in order, each with its ends in order, and apart: none starts before the end of the
  -- one before it, nor where that starts, and one that starts at that end is not empty.
  pub merged_selections-IsDisjoint :
      (selections : List (Selection ℕ Goal)) → IsDisjoint (merged_selections selections)
  unfolding merged_selections
  merged_selections-IsDisjoint selections =
      merge_sorted-IsDisjoint (sort_by by_start (map ordered selections))
        (sort_by-IsSortedFrom (map ordered selections) (map-ordered selections))

  -- They cover the offsets that the given selections cover, and no other.
  pub merged_selections-covered :
      (offset : ℕ) (selections : List (Selection ℕ Goal))
      → covered offset (merged_selections selections) ≡ any (between offset) selections
  unfolding merged_selections
  merged_selections-covered offset selections =
      merge_sorted-covered offset (sort_by by_start (map ordered selections))
        (sort_by-IsSortedFrom (map ordered selections) (map-ordered selections))
      ∙ any-sort_by by_start (covers offset) (map ordered selections)
      ∙ any-ordered offset selections
