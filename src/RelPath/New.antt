-- ===== src/RelPath/New.antt =====
-- `RelPath::new` against the meaning of a path: which paths it takes, and what it makes of them.
use mathlib.Core.List.{reverse}
use mathlib.Core.Path.{subst}
use zaku.Prelude.{
  ◌≡◌, refl, sym, ap, ◌∙◌, Option, none, some, List, [], All, Bool-cases, inl, inr, if◌then◌else◌,
  Result, ok, err, ◌>>=◌,
}
use zaku.Text.{Str}
use zaku.FilePath.{PathStyle, is_absolute}
use zaku.RelPath.{RelPath, PathError, absolute_path, Cow, as_ref, components, trimmed, new}
use zaku.RelPath.Components.{IsPlain, IsNormal, components-Lacks, join_components-IsNormal}
use zaku.RelPath.Stack.{resolve, unstack, resolved, reverse-IsPlain}
use zaku.RelPath.Normalize.{resolve-IsPlain, finish-resolved}
use zaku.RelPath.Trim.{spelled, NotTrailing-spelled}

-- `new` refuses an absolute path and one that leads above its start. Any other path it turns into
-- the path of the components that are left when `.` and empty ones are dropped and each `..` is
-- taken with the component before it.
pub new_lem :
    (path : Str) (style : PathStyle)
    → (new path style >>= λ r. ok (as_ref r)) ≡ (
        if is_absolute (trimmed path style) style
        then err absolute_path
        else resolved (resolve [] (components (as_ref (spelled path style)))))
unfolding new
new_lem path style = elim (Bool-cases (is_absolute (trimmed path style) style)) [
  | inl e ↦ rw e
  | inr e ↦ rw e (finish-resolved (spelled path style) (NotTrailing-spelled path style e))
]

resolved-IsNormal :
    (o : Option (List Str)) {s : RelPath}
    → ((stack : List Str) → o ≡ some stack → All IsPlain stack)
    → resolved o ≡ ok s
    → IsNormal s
resolved-IsNormal none h e = cc
resolved-IsNormal (some stack) {s} h e =
    let same : unstack stack ≡ s = cc in
    subst IsNormal same
      (join_components-IsNormal (reverse stack) (reverse-IsPlain stack (h stack refl)))

-- Every path that `new` returns consists of plain components.
pub new-IsNormal :
    (path : Str) (style : PathStyle) {r : Cow} → new path style ≡ ok r → IsNormal (as_ref r)
new-IsNormal path style {r} h =
    let cs = components (as_ref (spelled path style)) in
    let e : (if is_absolute (trimmed path style) style
          then err absolute_path
          else resolved (resolve [] cs))
        ≡ ok (as_ref r) =
      sym (new_lem path style) ∙ ap (λ (m : Result PathError Cow). m >>= λ c. ok (as_ref c)) h in
    elim (Bool-cases (is_absolute (trimmed path style) style)) [
      | inl a ↦ let f : err absolute_path ≡ ok (as_ref r) = rw a at e in cc
      | inr a ↦
          resolved-IsNormal (resolve [] cs)
            (λ stack f. resolve-IsPlain [] cs tt (components-Lacks (as_ref (spelled path style))) f)
            (rw a at e)
    ]
