-- ===== src/Disambiguate/Rounds.antt =====
-- The rounds end, when the descriptions stop changing from some detail on.
use Prim.Native.Nat.{◌*◌}
use Prim.Native.Nat.mul
use zaku.Prelude.{
  ℕ, zero, suc, ◌≤◌, ◌<◌, ◌≡◌, ◌↔◌, ◌∙◌, refl, sym, ap, inl, inr, Bool, Bool-cases, true, Option,
  some, List, [], ◌∷◌, map, any, length, All, arith,
}
use zaku.Disambiguate.{
  Entry, initial, visit, collides, bump, rounds, compute_disambiguation_details,
}
use zaku.Disambiguate.Details.{
  IsCurrent, room, room-visit, room-bump-lt, All-map-visit, All-map-bump, All-details,
}

length-map : {A B : Type 0} (f : A → B) (xs : List A) → length (map f xs) ≡ length xs
length-map f [] = refl
length-map f (x ∷ xs) = ap suc (length-map f xs)

-- A result of one detail for each entry, none of them more than one past `last`.
abbrev pub HasDetails : ℕ → ℕ → Option (List ℕ) → Type 0
HasDetails last count result =
    (details : List ℕ) × (result ≡ some details)
    × (length details ≡ count)
    × All (λ detail. detail ≤ suc last) details

module _ {T D : Type 0} (get_description : T → ℕ → D) (eq : D → D → Bool)
    (eq_iff : (c d : D) → (eq c d ≡ true) ↔ (c ≡ d)) (last : ℕ)
    (stable : (item : T) → get_description item (suc last) ≡ get_description item last) where
  abbrev E : Type 0
  E = Entry T D

  abbrev AreCurrent : List E → Type 0
  AreCurrent = All (IsCurrent get_description eq eq_iff last stable)

  rounds-HasDetails :
      (fuel : ℕ) (es : List E)
      → AreCurrent es
      → room get_description eq eq_iff last stable es < fuel
      → HasDetails last (length es) (rounds get_description eq fuel es)
  unfolding rounds
  rounds-HasDetails zero es c h = absurd (omega (arith, h))
  rounds-HasDetails (suc fuel) es c h =
      let visited = map (visit get_description eq) es in
      let v = All-map-visit get_description eq eq_iff last stable es c in
      elim (Bool-cases (any (collides eq visited) visited)) [
        | inl k ↦
            let bumped = map (bump eq visited) visited in
            let lt = room-bump-lt get_description eq eq_iff last stable visited visited v k in
            let same = room-visit get_description eq eq_iff last stable es in
            let (details, r, l, b) =
              rounds-HasDetails fuel bumped
                (All-map-bump get_description eq eq_iff last stable visited visited v)
                (omega (arith, lt, same, h)) in
            (
              details,
              rw (rounds, k) r,
              l ∙ length-map (bump eq visited) visited ∙ length-map (visit get_description eq) es,
              b,
            )
        | inr k ↦ (
          map (λ (e : E). e.detail) visited,
          rw (rounds, k),
          length-map (λ (e : E). e.detail) visited ∙ length-map (visit get_description eq) es,
          All-details get_description eq eq_iff last stable visited v,
        )
      ]

  initial-IsCurrent : (items : List T) → AreCurrent (map (initial get_description) items)
  initial-IsCurrent [] = tt
  initial-IsCurrent (item ∷ items) =
      (record { bounded = omega arith; described = inl refl }, initial-IsCurrent items)

  room-initial :
      (items : List T)
      → room get_description eq eq_iff last stable (map (initial get_description) items)
        ≡ length items * suc last
  room-initial [] = sym (mul.zero (suc last))
  room-initial (item ∷ items) = omega (arith, room-initial items, mul.suc (length items) (suc last))

  -- When the test `eq` is equality and no description changes from the detail `last` to the next:
  -- compute_disambiguation_details ends, after at most one round more than the items have details up
  -- to `last`, and gives each item a detail of at most one more than `last`.
  pub compute_disambiguation_details-HasDetails :
      (items : List T)
      → HasDetails last
          (length items)
          (compute_disambiguation_details get_description eq (suc (length items * suc last)) items)
  unfolding compute_disambiguation_details
  compute_disambiguation_details-HasDetails items =
      let (details, r, l, b) =
        rounds-HasDetails (suc (length items * suc last)) (map (initial get_description) items)
          (initial-IsCurrent items) (omega (arith, room-initial items)) in
      (details, r, l ∙ length-map (initial get_description) items, b)
