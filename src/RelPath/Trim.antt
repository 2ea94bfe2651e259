-- ===== src/RelPath/Trim.antt =====
-- The loops of `RelPath::new` that strip the ends of the path, and its slashes.
use zaku.Prelude.{
  ℕ, zero, suc, ◌≤◌, ◌≡◌, refl, ◌⊎◌, true, false, none, some, List, [], ◌∷◌, arith, length,
  Bool-cases, Option-cases, inl, inr,
}
use zaku.Text.{Str, replace, contains, strip_suffix}
use zaku.FilePath.{PathStyle, posix, windows, is_absolute}
use zaku.RelPath.{
  separator, backslash, Cow, as_ref, suffixes, strip_suffixes, with_slashes, trimmed,
}
use zaku.RelPath.Components.{NotTrailing}

length-strip_suffix :
    (set : List ℕ) (s p : Str) → strip_suffix set s ≡ some p → suc (length p) ≡ length s
length-strip_suffix set [] p h = cc
length-strip_suffix set (c ∷ []) p h = ground arith
length-strip_suffix set (c ∷ d ∷ s) [] h = ground arith
length-strip_suffix set (c ∷ d ∷ s) (e ∷ p) h = ground (arith, length-strip_suffix set (d ∷ s) p)

-- The second loop ends by its test: at a text with no suffix to strip, or at a lone separator.
strip_suffixes-done :
    (fuel : ℕ) (style : PathStyle) (s : Str)
    → length s ≤ fuel
    → (strip_suffix (suffixes style) (strip_suffixes fuel style s) ≡ none)
      ⊎ (strip_suffix (suffixes style) (strip_suffixes fuel style s) ≡ some [])
unfolding strip_suffixes
strip_suffixes-done zero style [] h = inl refl
strip_suffixes-done zero style (c ∷ s) h = absurd (omega arith)
strip_suffixes-done (suc fuel) style s h = elim (Option-cases (strip_suffix (suffixes style) s)) [
  | inl e ↦ rw (strip_suffixes, e) (inl e)
  | inr ([], e) ↦ rw (strip_suffixes, e) (inr e)
  | inr (c ∷ p, e) ↦
      rw (strip_suffixes, e)
        (strip_suffixes-done fuel style (c ∷ p)
          (omega (arith, length-strip_suffix (suffixes style) s (c ∷ p) e)))
]

is_absolute-lone :
    (style : PathStyle) (s : Str)
    → strip_suffix (suffixes style) s ≡ some []
    → is_absolute s style ≡ true
unfolding is_absolute
is_absolute-lone style [] h = cc
is_absolute-lone posix (c ∷ []) h = ground arith
is_absolute-lone windows (c ∷ []) h = ground arith
is_absolute-lone style (c ∷ d ∷ s) h =
    ground (arith, Option-cases (strip_suffix (suffixes style) (d ∷ s)))

NotTrailing-windows : (s : Str) → strip_suffix (suffixes windows) s ≡ none → NotTrailing s
NotTrailing-windows [] h = refl
NotTrailing-windows (c ∷ []) h = ground arith
NotTrailing-windows (c ∷ d ∷ s) h = ground (arith, NotTrailing-windows (d ∷ s))

NotTrailing-replace :
    (s : Str)
    → strip_suffix (suffixes windows) s ≡ none
    → NotTrailing (replace backslash separator s)
NotTrailing-replace [] h = refl
NotTrailing-replace (c ∷ []) h = ground arith
NotTrailing-replace (c ∷ d ∷ s) h = ground (arith, NotTrailing-replace (d ∷ s))

NotTrailing-with_slashes :
    (style : PathStyle) (s : Str)
    → strip_suffix (suffixes style) s ≡ none
    → NotTrailing (as_ref (with_slashes style s))
unfolding with_slashes
NotTrailing-with_slashes posix s h = h
NotTrailing-with_slashes windows s h = elim (Bool-cases (contains backslash s)) [
  | inl e ↦ rw e (NotTrailing-replace s h)
  | inr e ↦ rw e (NotTrailing-windows s h)
]

-- The text that `new` looks at, once its ends are stripped and its separators are slashes.
abbrev pub spelled : Str → PathStyle → Cow
spelled path style = with_slashes style (trimmed path style)

pub NotTrailing-spelled :
    (path : Str) (style : PathStyle)
    → is_absolute (trimmed path style) style ≡ false
    → NotTrailing (as_ref (spelled path style))
unfolding trimmed
NotTrailing-spelled path style h =
    NotTrailing-with_slashes style _ (elim (strip_suffixes-done _ style _ (omega arith)) [
      | inl e ↦ e
      | inr e ↦ cc (is_absolute-lone style (trimmed path style) e)
    ])
