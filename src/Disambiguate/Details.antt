-- ===== src/Disambiguate/Details.antt =====
-- What holds of the entries in every round, when the descriptions stop changing from some detail on.
use zaku.Prelude.{
  ℕ, suc, ◌+◌, ◌-◌, ◌≤◌, ◌<◌, ◌≡◌, ◌≢◌, ◌↔◌, ◌⊎◌, ◌∙◌, refl, sym, ap, inl, inr, Bool, Bool-cases,
  true, false, List, [], ◌∷◌, map, any, ltb, All, arith,
}
use zaku.Disambiguate.{Entry, visit, collides, bump}

true-false : true ≢ false
true-false h = cc

module _ {T D : Type 0} (get_description : T → ℕ → D) (eq : D → D → Bool)
    (eq_iff : (c d : D) → (eq c d ≡ true) ↔ (c ≡ d)) (last : ℕ)
    (stable : (item : T) → get_description item (suc last) ≡ get_description item last) where
  abbrev E : Type 0
  E = Entry T D

  -- The description is that of the detail, or of one less if the detail was just raised.
  pub record IsCurrent (e : E) : Type 0 where
    pub bounded : e.detail ≤ suc last
    pub described :
        (e.current_description ≡ get_description e.item e.detail)
        ⊎ ((k : ℕ) × (e.detail ≡ suc k) × (e.current_description ≡ get_description e.item k))

  pub record IsVisited (e : E) : Type 0 where
    pub visited_bounded : e.detail ≤ suc last
    pub visited_described : e.current_description ≡ get_description e.item e.detail
    pub entered_below : e.entered ≡ true → e.detail ≤ last

  -- At the greatest detail the description has stopped changing.
  described_at_last :
      (e : E)
      → IsCurrent e
      → e.detail ≡ suc last
      → e.current_description ≡ get_description e.item e.detail
  described_at_last e c h = elim c.described [
    | inl d ↦ d
    | inr (k, p, d) ↦
        d
        ∙ ap (get_description e.item) (omega (arith, p, h))
        ∙ sym (stable e.item)
        ∙ ap (get_description e.item) (sym h)
  ]

  split_bound : (n : ℕ) → n ≤ suc last → (n ≤ last) ⊎ (n ≡ suc last)
  split_bound n h = ground arith

  below_of_changed :
      (e : E)
      → IsCurrent e
      → eq (get_description e.item e.detail) e.current_description ≡ false
      → e.detail ≤ last
  below_of_changed e c k = elim (split_bound e.detail c.bounded) [
    | inl b ↦ b
    | inr b ↦
        let same =
          (eq_iff (get_description e.item e.detail) e.current_description).1
            (sym (described_at_last e c b)) in
        absurd (true-false (sym same ∙ k))
  ]

  described_at_zero :
      (e : E)
      → IsCurrent e
      → ltb 0 e.detail ≡ false
      → e.current_description ≡ get_description e.item e.detail
  described_at_zero e c h = elim c.described [ inl d ↦ d | inr (k, p, d) ↦ absurd (ground arith) ]

  pub visit-IsVisited : (e : E) → IsCurrent e → IsVisited (visit get_description eq e)
  unfolding visit
  visit-IsVisited e c = elim (Bool-cases (ltb 0 e.detail)) [
    | inl h ↦ elim (Bool-cases (eq (get_description e.item e.detail) e.current_description)) [
      | inl k ↦
          rw (visit, h, k)
            (record {
              visited_bounded = c.bounded;
              visited_described =
                  sym ((eq_iff (get_description e.item e.detail) e.current_description).0 k);
              entered_below = λ p. absurd (true-false (sym p));
            })
      | inr k ↦
          rw (visit, h, k)
            (record {
              visited_bounded = c.bounded;
              visited_described = refl;
              entered_below = λ p. below_of_changed e c k;
            })
    ]
    | inr h ↦
        rw (visit, h)
          (record {
            visited_bounded = c.bounded;
            visited_described = described_at_zero e c h;
            entered_below = λ p. ground arith;
          })
  ]

  entered_of_collides : (entries : List E) (e : E) → collides eq entries e ≡ true → e.entered ≡ true
  unfolding collides
  entered_of_collides entries e h = ground arith

  pub bump-IsCurrent : (entries : List E) (e : E) → IsVisited e → IsCurrent (bump eq entries e)
  unfolding bump
  bump-IsCurrent entries e v = elim (Bool-cases (collides eq entries e)) [
    | inl h ↦
        rw (bump, h)
          (record {
            bounded = omega (arith, v.entered_below (entered_of_collides entries e h));
            described = inr (e.detail, refl, v.visited_described);
          })
    | inr h ↦
        rw (bump, h) (record { bounded = v.visited_bounded; described = inl v.visited_described })
  ]

  -- How much detail is left.
  abbrev pub room : List E → ℕ
  room [] = 0
  room (e ∷ es) = suc last - e.detail + room es

  pub room-visit : (es : List E) → room (map (visit get_description eq) es) ≡ room es
  unfolding visit
  room-visit [] = refl
  room-visit (e ∷ es) = ground (arith, room-visit es)

  room-bump : (entries es : List E) → room (map (bump eq entries) es) ≤ room es
  unfolding bump
  room-bump entries [] = omega arith
  room-bump entries (e ∷ es) = ground (arith, room-bump entries es)

  pub room-bump-lt :
      (entries es : List E)
      → All IsVisited es
      → any (collides eq entries) es ≡ true
      → room (map (bump eq entries) es) < room es
  unfolding bump
  room-bump-lt entries [] v h = cc
  room-bump-lt entries (e ∷ es) v h = elim (Bool-cases (collides eq entries e)) [
    | inl k ↦
        let below = v.0.entered_below (entered_of_collides entries e k) in
        rw (bump, k) (omega (arith, below, room-bump entries es))
    | inr k ↦ rw (bump, k) (omega (arith, room-bump-lt entries es v.1 (ground arith)))
  ]

  pub All-map-visit :
      (es : List E) → All IsCurrent es → All IsVisited (map (visit get_description eq) es)
  All-map-visit [] c = tt
  All-map-visit (e ∷ es) c = (visit-IsVisited e c.0, All-map-visit es c.1)

  pub All-map-bump :
      (entries es : List E) → All IsVisited es → All IsCurrent (map (bump eq entries) es)
  All-map-bump entries [] v = tt
  All-map-bump entries (e ∷ es) v = (bump-IsCurrent entries e v.0, All-map-bump entries es v.1)

  pub All-details :
      (es : List E) → All IsVisited es → All (λ n. n ≤ suc last) (map (λ (e : E). e.detail) es)
  All-details [] v = tt
  All-details (e ∷ es) v = (v.0.visited_bounded, All-details es v.1)
