-- ===== src/RelPath/Unix.antt =====
-- What `new` has returned, `RelPath::unix` takes as it is.
use mathlib.Core.Path.{subst}
use zaku.Prelude.{
  ◌≡◌, refl, false, none, List, [], ◌∷◌, ◌++◌, arith, any, All, length, ok, ℕ, zero, suc, ◌≢◌,
  ok_of_bind,
}
use zaku.Text.{Str}
use zaku.Text.Split.{Lacks}
use zaku.FilePath.{PathStyle, posix, is_absolute}
use zaku.RelPath.{
  RelPath, separator, is_special, Cow, borrowed, as_ref, components, finish, find_prefix,
  strip_prefixes, strip_suffixes, with_slashes, trimmed, new, unix, owned, only_borrowed,
}
use zaku.RelPath.Components.{
  join_components, IsPlain, IsNormal, NotTrailing, components-join_components,
}
use zaku.RelPath.New.{new-IsNormal}

any-plain : (cs : List Str) → All IsPlain cs → any is_special cs ≡ false
any-plain [] h = refl
any-plain (c ∷ cs) h = rw (h.0.0, any-plain cs h.1)

find_prefix-name :
    (c rest : Str)
    → is_special c ≡ false
    → Lacks separator c
    → find_prefix posix (c ++ separator ∷ rest) ≡ none
find_prefix-name [] rest h l = cc
find_prefix-name (x ∷ []) rest h l = ground arith
find_prefix-name (x ∷ y ∷ c) rest h l = ground arith

find_prefix-lone : (c : Str) → IsPlain c → find_prefix posix c ≡ none
find_prefix-lone [] h = cc
find_prefix-lone (x ∷ []) h = ground arith
find_prefix-lone (x ∷ y ∷ c) h = ground arith

find_prefix-join_components :
    (cs : List Str) → All IsPlain cs → find_prefix posix (join_components cs) ≡ none
find_prefix-join_components [] h = refl
find_prefix-join_components (c ∷ []) h = find_prefix-lone c h.0
find_prefix-join_components (c ∷ d ∷ cs) h =
    find_prefix-name c (join_components (d ∷ cs)) h.0.0 h.0.1

NotTrailing-Lacks : (c : Str) → Lacks separator c → NotTrailing c
NotTrailing-Lacks [] h = refl
NotTrailing-Lacks (x ∷ []) h = ground arith
NotTrailing-Lacks (x ∷ y ∷ c) h = ground (arith, NotTrailing-Lacks (y ∷ c))

NotTrailing-append : (a b : Str) → b ≢ [] → NotTrailing b → NotTrailing (a ++ b)
NotTrailing-append [] b ne h = h
NotTrailing-append (x ∷ []) [] ne h = absurd (ne refl)
NotTrailing-append (x ∷ []) (y ∷ b) ne h = ground arith
NotTrailing-append (x ∷ y ∷ a) b ne h = ground (arith, NotTrailing-append (y ∷ a) b ne)

join_components-ne-nil : (c : Str) (cs : List Str) → IsPlain c → join_components (c ∷ cs) ≢ []
join_components-ne-nil [] cs h e = cc
join_components-ne-nil (x ∷ c) [] h e = cc
join_components-ne-nil (x ∷ c) (d ∷ cs) h e = cc

pub NotTrailing-join_components :
    (cs : List Str) → All IsPlain cs → NotTrailing (join_components cs)
NotTrailing-join_components [] h = refl
NotTrailing-join_components (c ∷ []) h = NotTrailing-Lacks c h.0.1
NotTrailing-join_components (c ∷ d ∷ cs) h =
    NotTrailing-append c (separator ∷ join_components (d ∷ cs)) (λ e. cc)
      (NotTrailing-append (separator ∷ []) (join_components (d ∷ cs))
        (join_components-ne-nil d cs h.1.0) (NotTrailing-join_components (d ∷ cs) h.1))

pub is_absolute-join_components :
    (cs : List Str) → All IsPlain cs → is_absolute (join_components cs) posix ≡ false
unfolding is_absolute
is_absolute-join_components [] h = refl
is_absolute-join_components ([] ∷ cs) h = cc
is_absolute-join_components ((x ∷ c) ∷ []) h = ground arith
is_absolute-join_components ((x ∷ c) ∷ d ∷ cs) h = ground arith

strip_prefixes-none :
    (fuel : ℕ) (style : PathStyle) (s : Str)
    → find_prefix style s ≡ none
    → strip_prefixes fuel style s ≡ s
unfolding strip_prefixes
strip_prefixes-none zero style s h = refl
strip_prefixes-none (suc fuel) style s h = rw (strip_prefixes, h)

strip_suffixes-none : (fuel : ℕ) (s : Str) → NotTrailing s → strip_suffixes fuel posix s ≡ s
unfolding strip_suffixes
strip_suffixes-none zero s h = refl
strip_suffixes-none (suc fuel) s h = rw (strip_suffixes, h)

trimmed-join_components :
    (cs : List Str) → All IsPlain cs → trimmed (join_components cs) posix ≡ join_components cs
unfolding trimmed
trimmed-join_components cs h =
    rw
      (strip_prefixes-none (length (join_components cs)) posix _ (find_prefix-join_components cs h))
      (strip_suffixes-none _ _ (NotTrailing-join_components cs h))

new-join_components :
    (cs : List Str)
    → All IsPlain cs
    → new (join_components cs) posix ≡ ok (borrowed (join_components cs))
unfolding new with_slashes finish
new-join_components cs h = rw (
  trimmed-join_components cs h,
  is_absolute-join_components cs h,
  components-join_components cs h,
  any-plain cs h,
)

-- A path of plain components is its own normal form, and `unix` takes it without allocating.
pub unix-IsNormal : (s : RelPath) → IsNormal s → unix s ≡ ok s
unfolding unix
unix-IsNormal s h =
    subst (λ (t : RelPath). unix t ≡ ok t) h.joined
      (rw (new-join_components (components s) h.plain))

-- Whatever path `new` has returned, in either style, `unix` takes it as it is.
pub unix-new :
    (path : Str) (style : PathStyle) {r : Cow}
    → new path style ≡ ok r
    → unix (as_ref r) ≡ ok (as_ref r)
unix-new path style {r} h = unix-IsNormal (as_ref r) (new-IsNormal path style h)

-- Whatever `unix` returns consists of plain components.
pub IsNormal-of_unix : (path : Str) {p : RelPath} → unix path ≡ ok p → IsNormal p
unfolding unix only_borrowed
IsNormal-of_unix path {p} h =
    let (result, e, d) = ok_of_bind (new path posix) _ h in from_result result e d
  where
    from_result :
        (result : Cow) → new path posix ≡ ok result → only_borrowed result ≡ ok p → IsNormal p
    from_result (borrowed q) e d =
        let same : q ≡ p = cc in subst IsNormal same (new-IsNormal path posix e)
    from_result (owned q) e d = cc
