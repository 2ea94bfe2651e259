-- ===== src/Selections/Pending.antt =====
-- crates/editor/src/selections_collection.rs: what `all` makes of the disjoint selections and the
-- pending one.
use zaku.Prelude.{
  ◌≡◌, ◌≢◌, refl, ap, ◌∙◌, ℕ, ◌≤◌, ◌<◌, true, false, ◌||◌, Option, none, some, List, [], ◌∷◌, ◌++◌,
  ltb, All, arith, Bool-cases, inl, inr, or_assoc, or_left_comm,
}
use zaku.Selections.{Selection, should_merge, merges, widened, all_with_pending, all_from}
use zaku.Selections.Disjoint.{Apart, Follows, IsDisjointAfter, IsDisjoint, covers, covered}

module _ {Goal : Type 0} where
  -- No selection ends just where the pending one starts.
  abbrev pub NoneEndsAt : ℕ → List (Selection ℕ Goal) → Type 0
  NoneEndsAt offset = All (λ s. s.end ≢ offset)

  -- The selections after one that is apart from them end behind its start.
  NoneEndsAt-start :
      (before : Selection ℕ Goal) (lower : ℕ) (selections : List (Selection ℕ Goal))
      → lower ≤ before.start
      → IsDisjointAfter (some before) selections
      → NoneEndsAt lower selections
  NoneEndsAt-start before lower [] h d = tt
  NoneEndsAt-start before lower (s ∷ ss) h (own, apart, rest) =
      ((λ e. omega arith), NoneEndsAt-start s lower ss (omega arith) rest)

  widened-ordered :
      (pending next : Selection ℕ Goal)
      → pending.start ≤ pending.end
      → (widened pending next).start ≤ (widened pending next).end
  unfolding widened
  widened-ordered pending next h = ground arith

  widened-NoneEndsAt :
      (pending next : Selection ℕ Goal) (rest : List (Selection ℕ Goal))
      → NoneEndsAt pending.start rest
      → NoneEndsAt next.start rest
      → NoneEndsAt (widened pending next).start rest
  unfolding widened
  widened-NoneEndsAt pending next rest h k = elim (Bool-cases (ltb next.start pending.start)) [
    | inl lower ↦ rw lower k
    | inr other ↦ rw other h
  ]

  widened-Follows :
      (before : Option (Selection ℕ Goal)) (pending next : Selection ℕ Goal)
      → pending.start ≤ pending.end
      → next.start ≤ next.end
      → Follows before pending
      → Follows before next
      → Follows before (widened pending next)
  unfolding widened
  widened-Follows none pending next h own f g = tt
  widened-Follows (some b) pending next h own f g = ground arith

  -- What follows the next selection follows what is before it.
  rest_after :
      (before : Option (Selection ℕ Goal)) (next : Selection ℕ Goal)
      (rest : List (Selection ℕ Goal))
      → Follows before next
      → next.start ≤ next.end
      → IsDisjointAfter (some next) rest
      → IsDisjointAfter before rest
  rest_after none next [] f own d = tt
  rest_after none next (s ∷ ss) f own (h, apart, d) = (h, tt, d)
  rest_after (some b) next [] f own d = tt
  rest_after (some b) next (s ∷ ss) f own (h, apart, d) = (h, ground arith, d)

  pending_last :
      (pending next : Selection ℕ Goal)
      → pending.start ≤ pending.end
      → next.start ≤ next.end
      → merges pending next false ≡ false
      → ltb next.end pending.start ≡ false
      → next.end ≢ pending.start
      → Apart pending next
  unfolding should_merge
  pending_last pending next h own apart behind ends = ground arith

  earlier-Apart :
      (pending next : Selection ℕ Goal)
      → pending.start ≤ pending.end
      → next.start ≤ next.end
      → ltb next.end pending.start ≡ true
      → Apart next pending
  earlier-Apart pending next h own before = ground arith

  all_with_pending-IsDisjointAfter :
      (before : Option (Selection ℕ Goal)) (pending : Selection ℕ Goal)
      (disjoint : List (Selection ℕ Goal))
      → pending.start ≤ pending.end
      → Follows before pending
      → IsDisjointAfter before disjoint
      → NoneEndsAt pending.start disjoint
      → IsDisjointAfter before (all_with_pending pending disjoint)
  unfolding all_with_pending
  all_with_pending-IsDisjointAfter before pending [] h f d ends = (h, f, tt)
  all_with_pending-IsDisjointAfter before pending (next ∷ rest) h f (own, g, d) ends =
      elim (Bool-cases (merges pending next false)) [
        | inl together ↦ rw together (
            all_with_pending-IsDisjointAfter before (widened pending next) rest
              (widened-ordered pending next h) (widened-Follows before pending next h own f g)
              (rest_after before next rest g own d)
              (widened-NoneEndsAt pending next rest ends.1
                (NoneEndsAt-start next next.start rest (omega arith) d)))
        | inr apart ↦ rw apart (elim (Bool-cases (ltb next.end pending.start)) [
          | inl earlier ↦ rw earlier (
            own,
            g,
            all_with_pending-IsDisjointAfter (some next) pending rest h
                (earlier-Apart pending next h own earlier) d ends.1,
          )
          | inr behind ↦
              rw behind (h, f, (own, pending_last pending next h own apart behind ends.0, d))
        ])
      ]

  widened-covers :
      (offset : ℕ) (pending next : Selection ℕ Goal)
      → pending.start ≤ pending.end
      → next.start ≤ next.end
      → merges pending next false ≡ true
      → covers offset (widened pending next) ≡ (covers offset pending || covers offset next)
  unfolding widened should_merge
  widened-covers offset pending next h own together = ground arith

  all_with_pending-covered :
      (offset : ℕ) (pending : Selection ℕ Goal) (disjoint : List (Selection ℕ Goal))
      → pending.start ≤ pending.end
      → All (λ s. s.start ≤ s.end) disjoint
      → covered offset (all_with_pending pending disjoint) ≡ covered offset (pending ∷ disjoint)
  unfolding all_with_pending
  all_with_pending-covered offset pending [] h own = refl
  all_with_pending-covered offset pending (next ∷ rest) h (own, all) =
      elim (Bool-cases (merges pending next false)) [
        | inl together ↦ rw together (
            all_with_pending-covered offset (widened pending next) rest
              (widened-ordered pending next h) all
            ∙ rw (widened-covers offset pending next h own together)
                (or_assoc (covers offset pending) (covers offset next) (covered offset rest)))
        | inr apart ↦ rw apart (elim (Bool-cases (ltb next.end pending.start)) [
          | inl earlier ↦ rw earlier (
              ap (covers offset next ||◌) (all_with_pending-covered offset pending rest h all)
              ∙ or_left_comm (covers offset next) (covers offset pending) (covered offset rest))
          | inr behind ↦ rw behind
        ])
      ]

  IsDisjointAfter-ordered :
      (before : Option (Selection ℕ Goal)) (selections : List (Selection ℕ Goal))
      → IsDisjointAfter before selections
      → All (λ s. s.start ≤ s.end) selections
  IsDisjointAfter-ordered before [] d = tt
  IsDisjointAfter-ordered before (s ∷ ss) (own, f, d) = (own, IsDisjointAfter-ordered (some s) ss d)

  -- Where the disjoint selections are apart and none of them ends just where the pending one starts,
  -- `all` gives selections that are apart, in order.
  pub all_from-IsDisjoint :
      (pending : Selection ℕ Goal) (disjoint : List (Selection ℕ Goal))
      → pending.start ≤ pending.end
      → IsDisjoint disjoint
      → NoneEndsAt pending.start disjoint
      → IsDisjoint (all_from (some pending) disjoint)
  unfolding all_from
  all_from-IsDisjoint pending disjoint h d ends =
      all_with_pending-IsDisjointAfter none pending disjoint h tt d ends

  -- Where the disjoint selections are apart, `all` gives selections of the same text as the pending
  -- one and the disjoint ones.
  pub all_from-covered :
      (offset : ℕ) (pending : Selection ℕ Goal) (disjoint : List (Selection ℕ Goal))
      → pending.start ≤ pending.end
      → IsDisjoint disjoint
      → covered offset (all_from (some pending) disjoint) ≡ covered offset (pending ∷ disjoint)
  unfolding all_from
  all_from-covered offset pending disjoint h d =
      all_with_pending-covered offset pending disjoint h (IsDisjointAfter-ordered none disjoint d)

  -- What stands before a selection ends where that starts, or before.
  le-of_before :
      (s next : Selection ℕ Goal) (before rest : List (Selection ℕ Goal))
      → IsDisjointAfter (some s) (before ++ next ∷ rest)
      → s.end ≤ next.start
  le-of_before s next [] rest (_, apart, _) = apart.0
  le-of_before s next (b ∷ before) rest (own, apart, d) =
      omega (arith, le-of_before b next before rest d, apart.0)

  module _ (pending next : Selection ℕ Goal) (rest : List (Selection ℕ Goal))
      (some_text : next.start < next.end) (touch : next.end ≡ pending.start)
      (pending_text : pending.start < pending.end) where
    all_with_pending-touching :
        (last : Option (Selection ℕ Goal)) (before : List (Selection ℕ Goal))
        → IsDisjointAfter last (before ++ next ∷ rest)
        → all_with_pending pending (before ++ next ∷ rest) ≡ before ++ pending ∷ next ∷ rest
    unfolding all_with_pending should_merge
    all_with_pending-touching last [] d = ground arith
    all_with_pending-touching last (b ∷ before) (own, _, d) =
        let early = le-of_before b next before rest d in
        let later = all_with_pending-touching (some b) before d in ground (arith, later)

    touching-not_IsDisjoint :
        (last : Option (Selection ℕ Goal)) (before : List (Selection ℕ Goal))
        → ¬ IsDisjointAfter last (before ++ pending ∷ next ∷ rest)
    touching-not_IsDisjoint last [] (_, _, (_, apart, _)) = omega arith
    touching-not_IsDisjoint last (b ∷ before) (_, _, d) = touching-not_IsDisjoint (some b) before d

  -- Where the disjoint selections are apart and one ends just where the pending one starts, neither
  -- being empty, `all` puts the pending one right in front of it: its result is out of order.
  pub all_from-touching :
      (pending next : Selection ℕ Goal) (before rest : List (Selection ℕ Goal))
      → next.start < next.end
      → next.end ≡ pending.start
      → pending.start < pending.end
      → IsDisjoint (before ++ next ∷ rest)
      → (all_from (some pending) (before ++ next ∷ rest) ≡ before ++ pending ∷ next ∷ rest)
        × ¬ IsDisjoint (all_from (some pending) (before ++ next ∷ rest))
  unfolding all_from
  all_from-touching pending next before rest h touch k d =
      let found = all_with_pending-touching pending next rest h touch k none before d in
      (found, rw found (touching-not_IsDisjoint pending next rest h touch k none before))
