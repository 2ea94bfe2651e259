-- ===== src/RelPath/Unstack.antt =====
-- What the accessors of a path see of the stack that the path stands for.
use mathlib.Core.List.{reverse, reverse-cons}
use zaku.Prelude.{
  ◌≤◌, ◌≡◌, ◌≢◌, refl, sym, ap, ◌∙◌, some, List, [], ◌∷◌, ◌++◌, arith, length, length-append,
  length-reverse, All,
}
use zaku.Text.{Str, rsplit_once}
use zaku.Text.Split.{rsplit_once-append}
use zaku.RelPath.{separator, next_back, join}
use zaku.RelPath.Components.{join_components, IsPlain}
use zaku.RelPath.Stack.{
  unstack, reverse-IsPlain, join_components-snoc, is_empty-join_components,
  next_back-join_components,
}

pub next_back-unstack :
    (top : Str) (below : List Str)
    → IsPlain top
    → next_back (unstack (top ∷ below)) ≡ some (top, unstack below)
next_back-unstack top below h =
    ap (λ (cs : List Str). next_back (join_components cs)) (reverse-cons top below)
    ∙ next_back-join_components (reverse below) top h

join-join_components :
    (cs : List Str) (c : Str)
    → All IsPlain cs
    → IsPlain c
    → join (join_components cs) c ≡ join_components (cs ++ c ∷ [])
unfolding join
join-join_components [] c hs h = refl
join-join_components (d ∷ cs) [] hs h = cc
join-join_components (d ∷ cs) (x ∷ c) hs h =
    rw (is_empty-join_components d cs hs.0) (sym (join_components-snoc d cs (x ∷ c)))

pub join-unstack :
    (top : Str) (below : List Str)
    → All IsPlain (top ∷ below)
    → join (unstack below) top ≡ unstack (top ∷ below)
join-unstack top below h =
    join-join_components (reverse below) top (reverse-IsPlain below h.1) h.0
    ∙ sym (ap join_components (reverse-cons top below))

length-le-join_components :
    (cs : List Str) → All IsPlain cs → length cs ≤ length (join_components cs)
length-le-join_components [] h = omega arith
length-le-join_components ([] ∷ cs) h = cc
length-le-join_components ((x ∷ c) ∷ []) h = omega arith
length-le-join_components ((x ∷ c) ∷ d ∷ cs) h = omega (
  arith,
  length-le-join_components (d ∷ cs) h.1,
  length-append c (separator ∷ join_components (d ∷ cs)),
)

pub length-le-unstack :
    (stack : List Str) → All IsPlain stack → length stack ≤ length (unstack stack)
length-le-unstack stack h = omega (
  arith,
  length-le-join_components (reverse stack) (reverse-IsPlain stack h),
  length-reverse stack,
)

-- Where the last separator of a path stands.
rsplit_once-snoc :
    (cs : List Str) (c : Str)
    → IsPlain c
    → cs ≢ []
    → rsplit_once separator (join_components (cs ++ c ∷ [])) ≡ some (join_components cs, c)
rsplit_once-snoc [] c h ne = absurd (ne refl)
rsplit_once-snoc (d ∷ cs) c h ne =
    ap (rsplit_once separator) (join_components-snoc d cs c)
    ∙ rsplit_once-append separator (join_components (d ∷ cs)) c h.1

pub rsplit_once-unstack :
    (top c : Str) (below : List Str)
    → IsPlain top
    → rsplit_once separator (unstack (top ∷ c ∷ below)) ≡ some (unstack (c ∷ below), top)
rsplit_once-unstack top c below h =
    ap (λ (cs : List Str). rsplit_once separator (join_components cs))
      (reverse-cons top (c ∷ below))
    ∙ rsplit_once-snoc (reverse (c ∷ below)) top h
        (λ e. absurd (omega (arith, length-reverse (c ∷ below), ap (λ (l : List Str). length l) e)))
