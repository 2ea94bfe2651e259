-- ===== src/RelPath/Normalize.antt =====
-- The normalizing loop of `RelPath::new` computes the meaning of the components.
use mathlib.Core.List.{reverse, reverse-cons, reverse-reverse, append_assoc, append-nil}
use mathlib.Core.Path.{subst}
use mathlib.Core.Option.{some-injective}
use zaku.Prelude.{
  ◌≡◌, refl, ap, ◌∙◌, false, Option, none, some, List, [], ◌∷◌, ◌++◌, arith, any, All, Bool-cases,
  Option-cases, inl, inr, ok, ◌>>=◌,
}
use zaku.Text.{Str}
use zaku.Text.Split.{Lacks}
use zaku.RelPath.{separator, is_special, Cow, owned, as_ref, components, normalize, finish}
use zaku.RelPath.Components.{IsPlain, NotTrailing, join_components-components, components-Lacks}
use zaku.RelPath.Stack.{
  resolve_step, resolve, unstack, resolved, normalize_component-unstack, resolve_step-IsPlain,
}

-- The loop on the buffer computes the meaning of the components.
normalize-unstack :
    (stack cs : List Str)
    → All IsPlain stack
    → All (Lacks separator) cs
    → normalize (unstack stack) cs ≡ resolved (resolve stack cs)
unfolding normalize
normalize-unstack stack [] h l = refl
normalize-unstack stack (c ∷ cs) h l = elim (Option-cases (resolve_step stack c)) [
  | inl e ↦ rw (normalize_component-unstack stack c h, resolve, e)
  | inr (next_stack, e) ↦
      rw (normalize_component-unstack stack c h, resolve, e)
        (normalize-unstack next_stack cs (resolve_step-IsPlain stack c h l.0 e) l.1)
]

pub resolve-IsPlain :
    (stack cs : List Str) {last : List Str}
    → All IsPlain stack
    → All (Lacks separator) cs
    → resolve stack cs ≡ some last
    → All IsPlain last
resolve-IsPlain stack [] {last} h l e = subst (All IsPlain) (some-injective stack last e) h
resolve-IsPlain stack (c ∷ cs) {last} h l e = elim (Option-cases (resolve_step stack c)) [
  | inl n ↦ cc
  | inr (next_stack, n) ↦
      resolve-IsPlain next_stack cs (resolve_step-IsPlain stack c h l.0 n) l.1
        (rw (resolve, n) at e)
]

-- Components none of which is special are plain, and stand for themselves.
any-special :
    (cs : List Str) → any is_special cs ≡ false → All (Lacks separator) cs → All IsPlain cs
any-special [] h l = tt
any-special (c ∷ cs) h l = ground (arith, any-special cs)

resolve_step-plain :
    (stack : List Str) (c : Str) → is_special c ≡ false → resolve_step stack c ≡ some (c ∷ stack)
resolve_step-plain stack c h = ground arith

pub resolve-plain :
    (stack cs : List Str)
    → any is_special cs ≡ false
    → resolve stack cs ≡ some (reverse cs ++ stack)
resolve-plain stack [] h = refl
resolve-plain stack (c ∷ cs) h =
    let e : is_special c ≡ false = ground arith in
    rw (resolve, resolve_step-plain stack c e)
      (resolve-plain (c ∷ stack) cs (ground arith)
        ∙ ap some (simp (reverse-cons c cs, append_assoc)))

allocated :
    (o : Option (List Str))
    → ((resolved o >>= λ buf. ok (owned buf)) >>= λ r. ok (as_ref r)) ≡ resolved o
allocated none = refl
allocated (some stack) = refl

-- What `finish` returns is the meaning of the text, whether it allocates or not.
pub finish-resolved :
    (c : Cow)
    → NotTrailing (as_ref c)
    → (finish c >>= λ r. ok (as_ref r)) ≡ resolved (resolve [] (components (as_ref c)))
unfolding finish
finish-resolved c t = elim (Bool-cases (any is_special (components (as_ref c)))) [
  | inl special ↦
      rw (special, normalize-unstack [] (components (as_ref c)) tt (components-Lacks (as_ref c)))
        (allocated (resolve [] (components (as_ref c))))
  | inr plain ↦
      rw (plain, resolve-plain [] (components (as_ref c)) plain)
        (simp (append-nil, reverse-reverse, join_components-components (as_ref c) t))
]
