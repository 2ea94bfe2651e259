-- ===== src/RelPath/Stack.antt =====
-- The buffer of the normalizing loop as a stack of components: what `pop`, `push` and the loop do
-- to it.
use mathlib.Core.List.{reverse, reverse-cons, append_assoc}
use zaku.Prelude.{
  ◌≡◌, refl, sym, ap, ◌∙◌, true, false, Option, none, some, List, [], ◌∷◌, ◌++◌, arith, All,
  All-append, ◌||◌, if◌then◌else◌, Result, ok, err,
}
use zaku.Text.{Str, is_empty, str_eq}
use zaku.Text.Split.{
  Lacks, rsplit_once-Lacks, rsplit_once-append, rfind-Lacks, rfind-append, truncate-append,
}
use zaku.RelPath.{
  RelPath, PathError, not_relative, separator, dot, dot_dot, next_back, pop, push,
  normalize_component,
}
use zaku.RelPath.Components.{join_components, IsPlain}

-- `join_components` with its last component split off.
pub join_components-snoc :
    (d : Str) (cs : List Str) (c : Str)
    → join_components ((d ∷ cs) ++ c ∷ []) ≡ join_components (d ∷ cs) ++ separator ∷ c
join_components-snoc d [] c = refl
join_components-snoc d (e ∷ cs) c =
    ap (λ (t : Str). d ++ separator ∷ t) (join_components-snoc e cs c)
    ∙ sym (append_assoc d (separator ∷ join_components (e ∷ cs)) (separator ∷ c))

next_back-append : (a b : Str) → Lacks separator b → next_back (a ++ separator ∷ b) ≡ some (b, a)
unfolding next_back
next_back-append a b h = rw (next_back, rsplit_once-append separator a b h)

pub next_back-join_components :
    (cs : List Str) (c : Str)
    → IsPlain c
    → next_back (join_components (cs ++ c ∷ [])) ≡ some (c, join_components cs)
unfolding next_back
next_back-join_components [] [] h = cc
next_back-join_components [] (x ∷ c) h = rw (next_back, rsplit_once-Lacks separator (x ∷ c) h.1)
next_back-join_components (d ∷ cs) c h =
    ap next_back (join_components-snoc d cs c) ∙ next_back-append (join_components (d ∷ cs)) c h.1

pop-append : (a b : Str) → Lacks separator b → pop (a ++ separator ∷ b) ≡ (a, true)
unfolding pop
pop-append a b h = rw (pop, rfind-append separator a b h) (rw (truncate-append a (separator ∷ b)))

pub pop-join_components :
    (cs : List Str) (c : Str)
    → IsPlain c
    → pop (join_components (cs ++ c ∷ [])) ≡ (join_components cs, true)
unfolding pop
pop-join_components [] [] h = cc
pop-join_components [] (x ∷ c) h = rw (pop, rfind-Lacks separator (x ∷ c) h.1)
pop-join_components (d ∷ cs) c h =
    ap pop (join_components-snoc d cs c) ∙ pop-append (join_components (d ∷ cs)) c h.1

pub is_empty-join_components :
    (c : Str) (cs : List Str) → IsPlain c → is_empty (join_components (c ∷ cs)) ≡ false
is_empty-join_components [] cs h = cc
is_empty-join_components (x ∷ c) [] h = refl
is_empty-join_components (x ∷ c) (d ∷ cs) h = refl

pub push-join_components :
    (cs : List Str) (c : Str)
    → All IsPlain cs
    → push (join_components cs) c ≡ join_components (cs ++ c ∷ [])
unfolding push
push-join_components [] c h = refl
push-join_components (d ∷ cs) c h =
    rw (is_empty-join_components d cs h.0) (
      append_assoc (join_components (d ∷ cs)) (separator ∷ []) c
      ∙ sym (join_components-snoc d cs c))

-- What a path means: its components read from left to right against a stack of those before,
-- the last on top. A `..` with nothing before it has no meaning.
abbrev pub resolve_step : List Str → Str → Option (List Str)
resolve_step stack c =
    if is_empty c || str_eq c dot
    then some stack
    else if str_eq c dot_dot
    then elim stack [ [] ↦ none | top ∷ below ↦ some below ]
    else some (c ∷ stack)

abbrev pub resolve : List Str → List Str → Option (List Str)
resolve stack [] = some stack
resolve stack (c ∷ rest) = elim (resolve_step stack c) [
  | none ↦ none
  | some next_stack ↦ resolve next_stack rest
]

-- The path that a stack stands for.
abbrev pub unstack : List Str → RelPath
unstack stack = join_components (reverse stack)

abbrev pub resolved : Option (List Str) → Result PathError RelPath
resolved none = err not_relative
resolved (some stack) = ok (unstack stack)

pub reverse-IsPlain : (cs : List Str) → All IsPlain cs → All IsPlain (reverse cs)
reverse-IsPlain [] h = tt
reverse-IsPlain (c ∷ cs) h =
    rw reverse-cons (All-append IsPlain (reverse cs) (c ∷ []) (reverse-IsPlain cs h.1) (h.0, tt))

pop-unstack :
    (top : Str) (below : List Str)
    → IsPlain top
    → pop (unstack (top ∷ below)) ≡ (unstack below, true)
pop-unstack top below h =
    ap (λ (cs : List Str). pop (join_components cs)) (reverse-cons top below)
    ∙ pop-join_components (reverse below) top h

push-unstack :
    (c : Str) (stack : List Str) → All IsPlain stack → push (unstack stack) c ≡ unstack (c ∷ stack)
push-unstack c stack h =
    push-join_components (reverse stack) c (reverse-IsPlain stack h)
    ∙ sym (ap join_components (reverse-cons c stack))

pop-nil : pop [] ≡ ([], false)
unfolding pop
pop-nil = refl

-- One round of the loop on the buffer is one step on the stack.
pub normalize_component-unstack :
    (stack : List Str) (c : Str)
    → All IsPlain stack
    → normalize_component (unstack stack) c ≡ resolved (resolve_step stack c)
unfolding normalize_component
normalize_component-unstack [] c h = ground (arith, pop-nil, push-unstack c [] h)
normalize_component-unstack (top ∷ below) c h =
    ground (arith, pop-unstack top below h.0, push-unstack c (top ∷ below) h)

pub resolve_step-IsPlain :
    (stack : List Str) (c : Str) {next_stack : List Str}
    → All IsPlain stack
    → Lacks separator c
    → resolve_step stack c ≡ some next_stack
    → All IsPlain next_stack
resolve_step-IsPlain [] c h l e = ground arith
resolve_step-IsPlain (top ∷ below) c h l e = ground arith
