-- ===== src/RelPath/Prefix.antt =====
-- `join`, `strip_prefix` and `starts_with`, on texts and on components.
use mathlib.Core.List.{append-nil}
use mathlib.Core.Path.{subst}
use zaku.Prelude.{
  ℕ, ◌≡◌, ◌≢◌, ◌⊎◌, refl, sym, ap, ◌∙◌, some, [], ◌∷◌, ◌++◌, arith, ==_self, Option-cases, inl, inr,
}
use zaku.Text.{Str, strip_prefix as text_strip_prefix}
use zaku.RelPath.{RelPath, separator, strip_prefix, strip_separator, join}
use zaku.RelPath.Components.{NotTrailing, NotTrailing-tail}

text_strip_prefix-append : (p s : Str) → text_strip_prefix p (p ++ s) ≡ some s
text_strip_prefix-append [] s = refl
text_strip_prefix-append (c ∷ p) s = rw (==_self c) (text_strip_prefix-append p s)

append_of_text_strip_prefix : (p s t : Str) → text_strip_prefix p s ≡ some t → s ≡ p ++ t
append_of_text_strip_prefix [] s t h = cc
append_of_text_strip_prefix (c ∷ p) [] t h = cc
append_of_text_strip_prefix (c ∷ p) (d ∷ s) t h = ground (arith, append_of_text_strip_prefix p s t)

text_strip_prefix_self : (s : Str) → text_strip_prefix s s ≡ some []
text_strip_prefix_self s =
    ap (text_strip_prefix s) (sym (append-nil s)) ∙ text_strip_prefix-append s []

-- Stripping the first part of a joined path gives the second, for any two texts.
pub strip_prefix-join : (a b : RelPath) → strip_prefix (join a b) a ≡ some b
unfolding strip_prefix join
strip_prefix-join [] b = refl
strip_prefix-join (c ∷ a) [] = rw (strip_prefix, text_strip_prefix_self (c ∷ a))
strip_prefix-join (c ∷ a) (d ∷ b) =
    rw (strip_prefix, text_strip_prefix-append (c ∷ a) (separator ∷ d ∷ b))

strip_separator-some :
    (suffix b : Str)
    → strip_separator suffix ≡ some b
    → ((suffix ≡ []) × (b ≡ [])) ⊎ (suffix ≡ separator ∷ b)
strip_separator-some [] b h = ground arith
strip_separator-some (x ∷ s) b h = ground arith

pub strip_prefix-some :
    (s : RelPath) (c : ℕ) (a b : RelPath)
    → strip_prefix s (c ∷ a) ≡ some b
    → ((s ≡ c ∷ a) × (b ≡ [])) ⊎ (s ≡ (c ∷ a) ++ separator ∷ b)
unfolding strip_prefix
strip_prefix-some s c a b h = elim (Option-cases (text_strip_prefix (c ∷ a) s)) [
  | inl e ↦ absurd (cc (rw (strip_prefix, e) at h))
  | inr (suffix, e) ↦
      let q : s ≡ (c ∷ a) ++ suffix = append_of_text_strip_prefix (c ∷ a) s suffix e in
      elim (strip_separator-some suffix b (rw (strip_prefix, e) at h)) [
        | inl (n, m) ↦ inl (q ∙ ap (λ (t : Str). (c ∷ a) ++ t) n ∙ append-nil (c ∷ a), m)
        | inr n ↦ inr (q ∙ ap (λ (t : Str). (c ∷ a) ++ t) n)
      ]
]

-- The other way round, on a path that does not end with a separator.
pub join-strip_prefix : (s a b : RelPath) → NotTrailing s → strip_prefix s a ≡ some b → join a b ≡ s
unfolding join
join-strip_prefix s [] b t h = unfold strip_prefix in cc
join-strip_prefix s (c ∷ a) b t h = elim (strip_prefix-some s c a b h) [
  | inl (e, n) ↦ rw n (sym e)
  | inr e ↦ not_empty b (NotTrailing-tail (c ∷ a) b (subst NotTrailing e t)).0 e
]
  where
    not_empty : (b : RelPath) → b ≢ [] → s ≡ (c ∷ a) ++ separator ∷ b → join (c ∷ a) b ≡ s
    not_empty [] ne e = absurd (ne refl)
    not_empty (d ∷ b) ne e = sym e
