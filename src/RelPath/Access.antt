-- ===== src/RelPath/Access.antt =====
-- `parent`, `file_name`, the reversed components and the ancestors of a path of plain components.
use mathlib.Core.List.{reverse, reverse-reverse}
use mathlib.Core.Path.{subst}
use zaku.Prelude.{
  ℕ, zero, suc, ◌≤◌, ◌≡◌, ◌≢◌, refl, sym, ap, ◌∙◌, some, List, [], ◌∷◌, arith, All, length,
}
use zaku.Text.{Str}
use zaku.RelPath.{
  RelPath, separator, next_back, collect, components, components_rev, file_name, parent, join,
  next_ancestor, collect_ancestors, ancestors,
}
use zaku.RelPath.Components.{
  join_components, IsPlain, IsNormal, join_components-IsNormal, collect-some, collect-none,
}
use zaku.Text.Split.{rsplit_once-Lacks}
use zaku.RelPath.Stack.{unstack, reverse-IsPlain}
use zaku.RelPath.Unstack.{next_back-unstack, rsplit_once-unstack, join-unstack, length-le-unstack}

-- The components of a path, the last first, as the stack that the path stands for.
pub stack_of : RelPath → List Str
stack_of s = reverse (components s)

pub unstack-stack_of : {s : RelPath} → IsNormal s → unstack (stack_of s) ≡ s
unfolding stack_of
unstack-stack_of {s} h = ap join_components (reverse-reverse (components s)) ∙ h.joined

pub stack_of-IsPlain : {s : RelPath} → IsNormal s → All IsPlain (stack_of s)
unfolding stack_of
stack_of-IsPlain {s} h = reverse-IsPlain (components s) h.plain

pub unstack-IsNormal : (stack : List Str) → All IsPlain stack → IsNormal (unstack stack)
unstack-IsNormal stack h = join_components-IsNormal (reverse stack) (reverse-IsPlain stack h)

collect-unstack :
    (stack : List Str) (n : ℕ)
    → All IsPlain stack
    → length stack ≤ n
    → collect n next_back (unstack stack) ≡ stack
collect-unstack [] n h le = collect-none n next_back (unfold next_back in refl)
collect-unstack (top ∷ below) zero h le = absurd (omega arith)
collect-unstack (top ∷ below) (suc n) h le =
    collect-some n next_back (next_back-unstack top below h.0)
    ∙ ap (top ∷◌) (collect-unstack below n h.1 (omega arith))

-- Read from the back, a path yields its components in reverse order.
pub components_rev-IsNormal : (s : RelPath) → IsNormal s → components_rev s ≡ reverse (components s)
unfolding components_rev stack_of
components_rev-IsNormal s h =
    subst (λ (t : RelPath). collect (length t) next_back t ≡ stack_of s) (unstack-stack_of h)
      (collect-unstack (stack_of s) _ (stack_of-IsPlain h)
        (length-le-unstack (stack_of s) (stack_of-IsPlain h)))

-- A path that is not empty is its parent joined with its file name, and the parent is again a
-- path of plain components.
record Splits (s p f : RelPath) : Type 0 where
  parent_eq : parent s ≡ some p
  file_name_eq : file_name s ≡ some f
  join_eq : join p f ≡ s
  parent_normal : IsNormal p
  name_plain : IsPlain f

Splits-unstack :
    (top : Str) (below : List Str)
    → All IsPlain (top ∷ below)
    → Splits (unstack (top ∷ below)) (unstack below) top
unfolding parent file_name
Splits-unstack top below h = record {
  parent_eq = rw (parent, next_back-unstack top below h.0);
  file_name_eq = rw (file_name, next_back-unstack top below h.0);
  join_eq = join-unstack top below h;
  parent_normal = unstack-IsNormal below h.1;
  name_plain = h.0;
}

Splits-stack :
    (stack : List Str)
    → All IsPlain stack
    → unstack stack ≢ []
    → (p f : RelPath) × Splits (unstack stack) p f
Splits-stack [] h ne = absurd (ne refl)
Splits-stack (top ∷ below) h ne = (unstack below, top, Splits-unstack top below h)

pub join-parent-file_name :
    (s : RelPath)
    → IsNormal s
    → s ≢ []
    → (p f : RelPath) × (parent s ≡ some p)
      × (file_name s ≡ some f)
      × (join p f ≡ s)
      × IsNormal p
      × IsPlain f
join-parent-file_name s h ne =
    let e : unstack (stack_of s) ≡ s = unstack-stack_of h in
    let (p, f, r) = Splits-stack (stack_of s) (stack_of-IsPlain h) (λ n. ne (sym e ∙ n)) in
    let r' : Splits s p f = subst (λ (t : RelPath). Splits t p f) e r in
    (p, f, r'.parent_eq, r'.file_name_eq, r'.join_eq, r'.parent_normal, r'.name_plain)

-- The paths of a stack and of all the stacks below it.
abbrev pub stack_ancestors : List Str → List RelPath
stack_ancestors [] = [] ∷ []
stack_ancestors (top ∷ below) = unstack (top ∷ below) ∷ stack_ancestors below

next_ancestor-unstack :
    (top : Str) (below : List Str)
    → All IsPlain (top ∷ below)
    → next_ancestor (some (unstack (top ∷ below)))
      ≡ some (unstack (top ∷ below), some (unstack below))
unfolding next_ancestor
next_ancestor-unstack [] [] h = cc
next_ancestor-unstack (x ∷ top) [] h =
    rw (next_ancestor, rsplit_once-Lacks separator (x ∷ top) h.0.1)
next_ancestor-unstack top (c ∷ below) h = rw (next_ancestor, rsplit_once-unstack top c below h.0)

collect_ancestors-unstack :
    (stack : List Str) (n : ℕ)
    → All IsPlain stack
    → suc (suc (length stack)) ≤ n
    → collect_ancestors n (some (unstack stack)) ≡ stack_ancestors stack
unfolding collect_ancestors
collect_ancestors-unstack [] (suc (suc n)) h le = unfold next_ancestor in refl
collect_ancestors-unstack (top ∷ below) (suc n) h le =
    rw (collect_ancestors, next_ancestor-unstack top below h)
      (ap (unstack (top ∷ below) ∷◌) (collect_ancestors-unstack below n h.1 (omega arith)))
collect_ancestors-unstack stack n h le = absurd (omega arith)

-- The ancestors of a path are the paths of its first components, from all of them down to none.
pub ancestors-IsNormal : (s : RelPath) → IsNormal s → ancestors s ≡ stack_ancestors (stack_of s)
unfolding ancestors
ancestors-IsNormal s h =
    subst
      (λ (t : RelPath).
        collect_ancestors (suc (suc (length t))) (some t) ≡ stack_ancestors (stack_of s))
      (unstack-stack_of h)
      (collect_ancestors-unstack (stack_of s) _ (stack_of-IsPlain h)
        (omega (arith, length-le-unstack (stack_of s) (stack_of-IsPlain h))))
