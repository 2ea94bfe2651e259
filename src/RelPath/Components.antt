-- ===== src/RelPath/Components.antt =====
-- The components of a path and the path of some components are inverse to one another.
use zaku.Prelude.{
  ℕ, zero, suc, ◌≤◌, ◌≡◌, refl, sym, ap, ◌∙◌, false, Option, none, some, List, [], ◌∷◌, ◌++◌, ◌⊎◌,
  arith, length, length-append, All, Option-cases, inl, inr, ◌≢◌,
}
use mathlib.Core.Path.{subst}
use zaku.Text.{Str, is_empty, split_once, strip_suffix}
use zaku.Text.Split.{
  Lacks, split_once-Lacks, split_once-append, Lacks-of_split_once, append_of_split_once,
}
use zaku.RelPath.{RelPath, separator, next, collect, components, is_special}

-- The path of some components.
abbrev pub join_components : List Str → RelPath
join_components [] = []
join_components (c ∷ []) = c
join_components (c ∷ d ∷ cs) = c ++ separator ∷ join_components (d ∷ cs)

-- A component that no special case concerns: not empty, not `.` or `..`, without a separator.
abbrev pub IsPlain : Str → Type 0
IsPlain c = (is_special c ≡ false) × Lacks separator c

-- A path that consists of plain components.
pub record IsNormal (s : RelPath) : Type 0 where
  pub plain : All IsPlain (components s)
  pub joined : join_components (components s) ≡ s

pub next-name : (c : Str) → IsPlain c → next c ≡ some (c, [])
unfolding next
next-name [] h = cc
next-name (x ∷ c) h = rw (next, split_once-Lacks separator (x ∷ c) h.1)

pub next-append : (c rest : Str) → Lacks separator c → next (c ++ separator ∷ rest) ≡ some (c, rest)
unfolding next
next-append c rest h = rw (next, split_once-append separator c rest h)

pub collect-some :
    (n : ℕ) (step : Str → Option (Str × Str)) {s c rest : Str}
    → step s ≡ some (c, rest)
    → collect (suc n) step s ≡ c ∷ collect n step rest
unfolding collect
collect-some n step h = rw (collect, h)

pub collect-none :
    (n : ℕ) (step : Str → Option (Str × Str)) {s : Str} → step s ≡ none → collect n step s ≡ []
unfolding collect
collect-none zero step h = refl
collect-none (suc n) step h = rw (collect, h)

collect-nil : (n : ℕ) → collect n next [] ≡ []
unfolding collect next
collect-nil zero = refl
collect-nil (suc n) = refl

length-plain : (c : Str) → IsPlain c → 1 ≤ length c
length-plain [] h = cc
length-plain (x ∷ c) h = omega arith

pub collect-join_components :
    (cs : List Str) (n : ℕ)
    → All IsPlain cs
    → length (join_components cs) ≤ n
    → collect n next (join_components cs) ≡ cs
unfolding collect
collect-join_components [] n h le = collect-nil n
collect-join_components (c ∷ []) zero h le = absurd (omega (arith, length-plain c h.0))
collect-join_components (c ∷ []) (suc n) h le =
    collect-some n next (next-name c h.0) ∙ ap (c ∷◌) (collect-nil n)
collect-join_components (c ∷ d ∷ cs) zero h le =
    absurd (omega (arith, length-plain c h.0, length-append {0}))
collect-join_components (c ∷ d ∷ cs) (suc n) h le =
    collect-some n next (next-append c (join_components (d ∷ cs)) h.0.1)
    ∙ ap (c ∷◌) (
        collect-join_components (d ∷ cs) n h.1
          (omega (arith, length-append c (separator ∷ join_components (d ∷ cs)))))

-- The components of a joined path are the components that were joined.
pub components-join_components :
    (cs : List Str) → All IsPlain cs → components (join_components cs) ≡ cs
unfolding components
components-join_components cs h = collect-join_components cs _ h (omega arith)

pub join_components-IsNormal : (cs : List Str) → All IsPlain cs → IsNormal (join_components cs)
join_components-IsNormal cs h = record {
  plain = rw (components-join_components cs h) h;
  joined = rw (components-join_components cs h);
}

-- A step that yields a component leaves a shorter text, and a separator only before that.
pub split_of_next :
    (s : Str) {c rest : Str}
    → next s ≡ some (c, rest)
    → Lacks separator c
      × (((rest ≡ []) × (s ≡ c) × (is_empty s ≡ false)) ⊎ (s ≡ c ++ separator ∷ rest))
unfolding next
split_of_next s {c} {rest} h = ground (
  arith,
  Option-cases (split_once separator s),
  Lacks-of_split_once separator s,
  append_of_split_once separator s c rest,
)

collect-Lacks : (n : ℕ) (s : Str) → All (Lacks separator) (collect n next s)
unfolding collect
collect-Lacks zero s = tt
collect-Lacks (suc n) s = elim (Option-cases (next s)) [
  | inl e ↦ rw (collect-none (suc n) next e) tt
  | inr (p, e) ↦ rw (collect-some n next e) ((split_of_next s e).0, collect-Lacks n p.1)
]

-- A text that does not end with a separator.
abbrev pub NotTrailing : Str → Type 0
NotTrailing s = strip_suffix (separator ∷ []) s ≡ none

pub NotTrailing-tail : (a b : Str) → NotTrailing (a ++ separator ∷ b) → (b ≢ []) × NotTrailing b
NotTrailing-tail [] [] h = cc
NotTrailing-tail [] (x ∷ b) h = ground arith
NotTrailing-tail (y ∷ []) b h = ground (arith, NotTrailing-tail [] b)
NotTrailing-tail (y ∷ z ∷ a) b h = ground (arith, NotTrailing-tail (z ∷ a) b)

nil_of_next : (s : Str) → next s ≡ none → s ≡ []
unfolding next
nil_of_next [] h = refl
nil_of_next (x ∷ s) h = ground (arith, Option-cases (split_once separator (x ∷ s)))

join_components-cons :
    (c : Str) (cs : List Str)
    → cs ≢ []
    → join_components (c ∷ cs) ≡ c ++ separator ∷ join_components cs
join_components-cons c [] h = absurd (h refl)
join_components-cons c (d ∷ cs) h = refl

join_components-more :
    (c rest : Str) (cs : List Str)
    → rest ≢ []
    → join_components cs ≡ rest
    → join_components (c ∷ cs) ≡ c ++ separator ∷ rest
join_components-more c rest cs ne e =
    join_components-cons c cs (λ empty. ne (sym e ∙ ap join_components empty))
    ∙ ap (λ (t : Str). c ++ separator ∷ t) e

join_components-collect :
    (n : ℕ) (s : Str) → length s ≤ n → NotTrailing s → join_components (collect n next s) ≡ s
join_components-collect zero [] le h = unfold collect in refl
join_components-collect zero (x ∷ s) le h = absurd (omega arith)
join_components-collect (suc n) s le h = elim (Option-cases (next s)) [
  | inl e ↦ rw (collect-none (suc n) next e) (sym (nil_of_next s e))
  | inr ((c, rest), e) ↦ rw (collect-some n next e) (elim ((split_of_next s e).1) [
    | inl (r, q, _) ↦ rw (r, collect-nil n) (sym q)
    | inr q ↦
        let t = NotTrailing-tail c rest (subst NotTrailing q h) in
        join_components-more c rest (collect n next rest) t.0 (
          join_components-collect n rest
            (omega (arith, ap length q, length-append c (separator ∷ rest))) t.1)
        ∙ sym q
  ])
]

-- A path that does not end with a separator is the path of its components.
pub join_components-components : (s : RelPath) → NotTrailing s → join_components (components s) ≡ s
unfolding components
join_components-components s h = join_components-collect (length s) s (omega arith) h

pub components-Lacks : (s : RelPath) → All (Lacks separator) (components s)
unfolding components
components-Lacks s = collect-Lacks (length s) s
