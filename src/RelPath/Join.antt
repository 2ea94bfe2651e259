-- ===== src/RelPath/Join.antt =====
-- `join` and `starts_with` on the components of paths.
use mathlib.Core.List.{append_assoc, append-nil}
use mathlib.Core.Path.{subst}
use zaku.Prelude.{
  ℕ, zero, suc, ◌≤◌, ◌<◌, ◌≡◌, ◌≢◌, ◌↔◌, refl, sym, ap, ◌∙◌, true, false, some, List, [], ◌∷◌, ◌++◌,
  arith, All, All-append, length, length-append, Option-cases, inl, inr,
}
use zaku.Text.{Str, is_empty}
use zaku.RelPath.{RelPath, separator, next, collect, components, strip_prefix, starts_with, join}
use zaku.RelPath.Components.{
  join_components, IsPlain, IsNormal, join_components-IsNormal, components-join_components,
  next-append, collect-some, collect-none, split_of_next,
}
use zaku.RelPath.Stack.{is_empty-join_components}
use zaku.RelPath.Prefix.{strip_prefix-join, strip_prefix-some}

length-next : (s : Str) {c rest : Str} → next s ≡ some (c, rest) → length rest < length s
length-next s {c} {rest} h = elim (split_of_next s h).1 [
  | inl (r, q, n) ↦ rw r (not_empty s n)
  | inr q ↦ omega (arith, ap length q, length-append c (separator ∷ rest))
]
  where
    not_empty : (t : Str) → is_empty t ≡ false → 0 < length t
    not_empty [] e = cc
    not_empty (x ∷ t) e = omega arith

-- More fuel than the length changes nothing.
collect-enough :
    (n m : ℕ) (s : Str) → length s ≤ n → length s ≤ m → collect n next s ≡ collect m next s
collect-enough zero m [] h k = unfold collect next in sym (collect-none m next refl)
collect-enough zero m (x ∷ s) h k = absurd (omega arith)
collect-enough (suc n) zero [] h k =
    unfold next in collect-none (suc n) next refl ∙ sym (collect-none zero next refl)
collect-enough (suc n) zero (x ∷ s) h k = absurd (omega arith)
collect-enough (suc n) (suc m) s h k = elim (Option-cases (next s)) [
  | inl e ↦ collect-none (suc n) next e ∙ sym (collect-none (suc m) next e)
  | inr ((c, rest), e) ↦
      collect-some n next e
      ∙ ap (c ∷◌) (
          collect-enough n m rest (omega (arith, length-next s e)) (omega (arith, length-next s e)))
      ∙ sym (collect-some m next e)
]

components-next :
    (s : Str) {c rest : Str} → next s ≡ some (c, rest) → components s ≡ c ∷ components rest
unfolding components
components-next s {c} {rest} h =
    collect-enough (length s) (suc (length s)) s (omega arith) (omega arith)
    ∙ collect-some (length s) next h
    ∙ ap (c ∷◌) (
        collect-enough (length s) (length rest) rest (omega (arith, length-next s h)) (omega arith))

-- The components before and behind a separator.
components-append :
    (c : Str) (cs : List Str) (b : Str)
    → All IsPlain (c ∷ cs)
    → components (join_components (c ∷ cs) ++ separator ∷ b) ≡ (c ∷ cs) ++ components b
components-append c [] b h = components-next _ (next-append c b h.0.1)
components-append c (d ∷ cs) b h =
    ap components (append_assoc c (separator ∷ join_components (d ∷ cs)) (separator ∷ b))
    ∙ components-next _ (next-append c (join_components (d ∷ cs) ++ separator ∷ b) h.0.1)
    ∙ ap (c ∷◌) (components-append d cs b h.1)

components-behind :
    (cs : List Str) (a b : RelPath)
    → All IsPlain cs
    → join_components cs ≡ a
    → a ≢ []
    → components (a ++ separator ∷ b) ≡ cs ++ components b
components-behind [] a b h e ne = absurd (ne (sym e))
components-behind (c ∷ cs) a b h e ne =
    ap (λ (t : Str). components (t ++ separator ∷ b)) (sym e) ∙ components-append c cs b h

join_components-append-cons :
    (c : Str) (cs : List Str) (d : Str) (ds : List Str)
    → join_components ((c ∷ cs) ++ d ∷ ds)
      ≡ join_components (c ∷ cs) ++ separator ∷ join_components (d ∷ ds)
join_components-append-cons c [] d ds = refl
join_components-append-cons c (e ∷ cs) d ds =
    ap (λ (t : Str). c ++ separator ∷ t) (join_components-append-cons e cs d ds)
    ∙ sym (
        append_assoc c (separator ∷ join_components (e ∷ cs))
          (separator ∷ join_components (d ∷ ds)))

-- To join two paths is to append their components.
join-append :
    (cs ds : List Str)
    → All IsPlain cs
    → All IsPlain ds
    → join (join_components cs) (join_components ds) ≡ join_components (cs ++ ds)
unfolding join
join-append [] ds h k = refl
join-append (c ∷ cs) [] h k =
    rw (is_empty-join_components c cs h.0) (ap join_components (sym (append-nil (c ∷ cs))))
join-append (c ∷ cs) (d ∷ ds) h k =
    rw (is_empty-join_components c cs h.0, is_empty-join_components d ds k.0)
      (sym (join_components-append-cons c cs d ds))

-- The join of two paths of plain components is one, and has the components of both.
pub components-join :
    (a b : RelPath)
    → IsNormal a
    → IsNormal b
    → (components (join a b) ≡ components a ++ components b) × IsNormal (join a b)
components-join a b h k =
    let plain = All-append IsPlain (components a) (components b) h.plain k.plain in
    let e : join_components (components a ++ components b) ≡ join a b =
      sym (join-append (components a) (components b) h.plain k.plain)
      ∙ ap (λ (t : RelPath). join t (join_components (components b))) h.joined
      ∙ ap (join a) k.joined in
    (
      ap components (sym e) ∙ components-join_components (components a ++ components b) plain,
      subst IsNormal e (join_components-IsNormal (components a ++ components b) plain),
    )

All-of-append : (cs ds : List Str) → All IsPlain (cs ++ ds) → All IsPlain ds
All-of-append [] ds h = h
All-of-append (c ∷ cs) ds h = All-of-append cs ds h.1

starts_with-join : (a b : RelPath) → starts_with (join a b) a ≡ true
unfolding starts_with
starts_with-join a b = rw (starts_with, strip_prefix-join a b)

-- A path starts with another exactly when its components do.
pub starts_with_iff :
    (s a : RelPath)
    → IsNormal s
    → IsNormal a
    → (starts_with s a ≡ true) ↔ ((cs : List Str) × (components s ≡ components a ++ cs))
starts_with_iff s a h k = (forward s a k, backward)
  where
    forward :
        (s a : RelPath)
        → IsNormal a
        → starts_with s a ≡ true
        → (cs : List Str) × (components s ≡ components a ++ cs)
    forward s [] k e = (components s, unfold components collect in refl)
    forward s (c ∷ a) k e = elim (Option-cases (strip_prefix s (c ∷ a))) [
      | inl n ↦ absurd (unfold starts_with in cc (rw (starts_with, n) at e))
      | inr (b, m) ↦ elim (strip_prefix-some s c a b m) [
        | inl (q, _) ↦ ([], ap components q ∙ sym (append-nil (components (c ∷ a))))
        | inr q ↦ (
          components b,
          ap components q
              ∙ components-behind (components (c ∷ a)) (c ∷ a) b k.plain k.joined (λ n. cc),
        )
      ]
    ]

    backward : (cs : List Str) × (components s ≡ components a ++ cs) → starts_with s a ≡ true
    backward (cs, e) =
        let plain : All IsPlain cs =
          All-of-append (components a) cs (subst (All IsPlain) e h.plain) in
        let q : join a (join_components cs) ≡ s =
          ap (λ (t : RelPath). join t (join_components cs)) (sym k.joined)
          ∙ join-append (components a) cs k.plain plain
          ∙ ap join_components (sym e)
          ∙ h.joined in
        subst (λ (t : RelPath). starts_with t a ≡ true) q (starts_with-join a (join_components cs))
