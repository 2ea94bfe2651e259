-- ===== src/Git/Dedup.antt =====
-- The entries of a report: their paths are normal, in strictly increasing order, and none is lost.
use mathlib.Core.Path.{subst}
use zaku.Prelude.{
  ◌≡◌, ◌≢◌, inl, inr, refl, sym, ap, ◌∙◌, Bool, false, ◌||◌, some, List, [], ◌∷◌, arith, All,
  filter_map, Bool-cases, Option-cases, Result-cases, filter_map-none, filter_map-some,
}
use zaku.Order.{Ordering, Ordering-cases}
use zaku.Text.{Str, str_eq, split, ends_with}
use zaku.Text.Split.{str_eq_self, eq_of_str_eq}
use zaku.RelPath.{RelPath, separator, unix, cmp}
use zaku.RelPath.Unix.{IsNormal-of_unix}
use zaku.Git.{from_bytes}
use zaku.Git.Report.{Entry, parse_entry, sorted, merged, dedup_from, dedup, parse_entries, from_str}
use zaku.Git.Sorted.{
  HasNormalPath, eq_of_cmp, Head, Linked, Before, NotBehind, names_path, Linked-sorted, All-sorted,
  names_path-sorted,
}

-- The entries that are left all have different paths.
Head-dedup_from :
    (d right : Entry) (es : List Entry) → Before d right → Head Before d (dedup_from right es)
Head-dedup_from d right [] h = h
Head-dedup_from d right (left ∷ es) h = elim (Bool-cases (str_eq left.0 right.0)) [
  | inl q ↦ rw q (Head-dedup_from d (right.0, merged left.1 right.1) es h)
  | inr q ↦ rw q h
]

Before-of_NotBehind :
    (right left : Entry)
    → HasNormalPath right
    → HasNormalPath left
    → NotBehind right left
    → str_eq left.0 right.0 ≡ false
    → Before right left
Before-of_NotBehind right left h k n q = elim (Ordering-cases (cmp right.0 left.0)) [
  | inl e ↦ e
  | inr (inl e) ↦ absurd (cc (eq_of_cmp right.0 left.0 h k e, str_eq_self left.0))
  | inr (inr e) ↦ absurd (n e)
]

Head-same : (d e : Entry) (es : List Entry) → d.0 ≡ e.0 → Head NotBehind d es → Head NotBehind e es
Head-same d e [] q h = tt
Head-same d e (f ∷ es) q h = subst (λ (p : RelPath). cmp p f.0 ≢ Ordering.gt) q h

Linked-dedup_from :
    (right : Entry) (es : List Entry)
    → All HasNormalPath (right ∷ es)
    → Linked NotBehind (right ∷ es)
    → Linked Before (dedup_from right es)
Linked-dedup_from right [] h k = (tt, tt)
Linked-dedup_from right (left ∷ es) h k = elim (Bool-cases (str_eq left.0 right.0)) [
  | inl q ↦ rw q (
      Linked-dedup_from (right.0, merged left.1 right.1) es (h.0, h.1.1)
        (Head-same left right es (eq_of_str_eq left.0 right.0 q) k.1.0, k.1.1))
  | inr q ↦ rw q (
    Head-dedup_from right left es (Before-of_NotBehind right left h.0 h.1.0 k.0 q),
    Linked-dedup_from left es h.1 k.1,
  )
]

or_twice : (a b : Bool) → (a || b) ≡ (a || (a || b))
or_twice a b = ground arith

names_path-dedup_from :
    (p : RelPath) (right : Entry) (es : List Entry)
    → names_path p (dedup_from right es) ≡ names_path p (right ∷ es)
names_path-dedup_from p right [] = refl
names_path-dedup_from p right (left ∷ es) = elim (Bool-cases (str_eq left.0 right.0)) [
  | inl q ↦ rw q (
      names_path-dedup_from p (right.0, merged left.1 right.1) es
      ∙ or_twice (str_eq p right.0) (names_path p es)
      ∙ ap (λ (r : RelPath). str_eq p right.0 || (str_eq p r || names_path p es))
          (sym (eq_of_str_eq left.0 right.0 q)))
  | inr q ↦ rw q (ap (str_eq p right.0 ||◌) (names_path-dedup_from p left es))
]

All-dedup_from :
    (right : Entry) (es : List Entry)
    → All HasNormalPath (right ∷ es)
    → All HasNormalPath (dedup_from right es)
All-dedup_from right [] h = h
All-dedup_from right (left ∷ es) h = elim (Bool-cases (str_eq left.0 right.0)) [
  | inl q ↦ rw q (All-dedup_from (right.0, merged left.1 right.1) es (h.0, h.1.1))
  | inr q ↦ rw q (h.0, All-dedup_from left es h.1)
]

-- What one piece of the report gives.
parse_entry-IsNormal : (piece : Str) {e : Entry} → parse_entry piece ≡ some e → HasNormalPath e
unfolding parse_entry
parse_entry-IsNormal [] h = cc
parse_entry-IsNormal (a ∷ []) h = cc
parse_entry-IsNormal (a ∷ b ∷ []) h = cc
parse_entry-IsNormal (a ∷ b ∷ sep ∷ path) {e} h = IsNormal-of_unix path (
    ground (
      arith,
      Result-cases (from_bytes a b),
      Result-cases (unix path),
      Bool-cases (ends_with separator path),
    ))

All-parse_entries : (pieces : List Str) → All HasNormalPath (filter_map parse_entry pieces)
All-parse_entries [] = tt
All-parse_entries (piece ∷ pieces) = elim (Option-cases (parse_entry piece)) [
  | inl q ↦
      subst (All HasNormalPath) (sym (filter_map-none parse_entry piece pieces q))
        (All-parse_entries pieces)
  | inr (e, q) ↦
      subst (All HasNormalPath) (sym (filter_map-some parse_entry piece pieces q))
        (parse_entry-IsNormal piece q, All-parse_entries pieces)
]

All-from_parse_entries : (output : Str) → All HasNormalPath (parse_entries output)
unfolding parse_entries
All-from_parse_entries output = All-parse_entries (split 0 output)

dedup-Linked :
    (es : List Entry)
    → All HasNormalPath es
    → Linked NotBehind es
    → Linked Before (dedup es) × All HasNormalPath (dedup es)
unfolding dedup
dedup-Linked [] h k = (tt, tt)
dedup-Linked (e ∷ es) h k = (Linked-dedup_from e es h k, All-dedup_from e es h)

names_path-dedup : (p : RelPath) (es : List Entry) → names_path p (dedup es) ≡ names_path p es
unfolding dedup
names_path-dedup p [] = refl
names_path-dedup p (e ∷ es) = names_path-dedup_from p e es

-- The entries that are read from any report stand in strictly increasing order of their paths, so
-- no two have the same path, and every path consists of plain components.
pub from_str-Linked :
    (output : Str) → Linked Before (from_str output) × All HasNormalPath (from_str output)
unfolding from_str
from_str-Linked output =
    dedup-Linked (sorted (parse_entries output))
      (All-sorted (parse_entries output) (All-from_parse_entries output))
      (Linked-sorted (parse_entries output))

-- Sorting and merging neither lose a path that a piece of the report names nor add one.
pub names_path-from_str :
    (p : RelPath) (output : Str)
    → names_path p (from_str output) ≡ names_path p (parse_entries output)
unfolding from_str
names_path-from_str p output =
    names_path-dedup p (sorted (parse_entries output)) ∙ names_path-sorted p (parse_entries output)
