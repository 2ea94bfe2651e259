-- ===== src/Git/Print.antt =====
-- A report as `git status -z` prints it, and what `from_str` reads from it.
use mathlib.Core.Path.{subst}
use zaku.Prelude.{
  ◌≡◌, ◌⊎◌, refl, ap, ◌∙◌, true, false, some, List, [], ◌∷◌, ◌++◌, map, All, Bool-cases, inl, inr,
  filter_map, filter_map-some,
}
use zaku.Text.{Str, str_eq, split, ends_with}
use zaku.Text.Split.{Lacks, split-append, str_eq_self, eq_of_str_eq}
use zaku.RelPath.{RelPath, separator, components}
use zaku.RelPath.Components.{IsNormal, NotTrailing}
use zaku.RelPath.Unix.{unix-IsNormal, NotTrailing-join_components}
use zaku.Git.{FileStatus, StatusCode, index, is_untracked}
use zaku.Git.Bytes.{
  first_byte, second_byte, is_reported, reread, first_byte-nul, second_byte-nul, from_bytes-bytes,
}
use zaku.Git.Report.{
  Entry, parse_entry, insert_sorted, sorted, merged, dedup_from, dedup, parse_entries, from_str,
  deleted_and_added,
}
use zaku.Git.Sorted.{Linked, Before, cmp_self, insert_sorted-NotBehind}

-- One entry without its end, and all of them, each with a NUL behind it.
abbrev pub print_entry : Entry → Str
print_entry e = first_byte e.1 ∷ second_byte e.1 ∷ b' ' ∷ e.0

abbrev pub print : List Entry → Str
print [] = []
print (e ∷ es) = print_entry e ++ 0 ∷ print es

-- An entry that a report can hold: a status that git reports, and a path without a NUL.
pub record IsPrintable (e : Entry) : Type 0 where
  pub reported : is_reported e.1 ≡ true
  pub normal : IsNormal e.0
  pub no_nul : Lacks 0 e.0

-- The entry that is read from its print.
abbrev pub read_entry : Entry → Entry
read_entry e = (e.0, reread e.1)

Lacks-print_entry : (e : Entry) → IsPrintable e → Lacks 0 (print_entry e)
Lacks-print_entry e h = (first_byte-nul e.1, (second_byte-nul e.1, (refl, h.no_nul)))

ends_with-IsNormal : (s : RelPath) → IsNormal s → ends_with separator s ≡ false
ends_with-IsNormal s h =
    let t : NotTrailing s =
      subst NotTrailing h.joined (NotTrailing-join_components (components s) h.plain) in
    rw (ends_with, t)

parse_entry-print_entry :
    (e : Entry) → IsPrintable e → parse_entry (print_entry e) ≡ some (read_entry e)
unfolding parse_entry
parse_entry-print_entry e h = rw (
  parse_entry,
  ends_with-IsNormal e.0 h.normal,
  from_bytes-bytes e.1 h.reported,
  unix-IsNormal e.0 h.normal,
)

parse_entries-print :
    (es : List Entry) → All IsPrintable es → parse_entries (print es) ≡ map read_entry es
unfolding parse_entries parse_entry
parse_entries-print [] h = refl
parse_entries-print (e ∷ es) h =
    ap (filter_map parse_entry)
      (split-append 0 (print_entry e) (print es) (Lacks-print_entry e h.0))
    ∙ filter_map-some parse_entry (print_entry e) (split 0 (print es))
        (parse_entry-print_entry e h.0)
    ∙ ap (read_entry e ∷◌) (parse_entries-print es h.1)

insert_sorted-Before :
    (e : Entry) (es : List Entry) → Linked Before (e ∷ es) → insert_sorted e es ≡ e ∷ es
insert_sorted-Before e [] h = refl
insert_sorted-Before e (f ∷ es) h = insert_sorted-NotBehind e f es (λ n. cc)

sorted-Before : (es : List Entry) → Linked Before es → sorted es ≡ es
unfolding sorted
sorted-Before [] h = refl
sorted-Before (e ∷ es) h = ap (insert_sorted e) (sorted-Before es h.1) ∙ insert_sorted-Before e es h

dedup_from-Before :
    (e : Entry) (es : List Entry) → Linked Before (e ∷ es) → dedup_from e es ≡ e ∷ es
dedup_from-Before e [] h = refl
dedup_from-Before e (f ∷ es) h =
    rw (different (Bool-cases (str_eq f.0 e.0))) (ap (e ∷◌) (dedup_from-Before f es h.1))
  where
    different : (str_eq f.0 e.0 ≡ true) ⊎ (str_eq f.0 e.0 ≡ false) → str_eq f.0 e.0 ≡ false
    different (inl q) = absurd (cc (h.0, cmp_self e.0, eq_of_str_eq f.0 e.0 q))
    different (inr q) = q

dedup-Before : (es : List Entry) → Linked Before es → dedup es ≡ es
unfolding dedup
dedup-Before [] h = refl
dedup-Before (e ∷ es) h = dedup_from-Before e es h

-- Order is by the paths.
Before-read_entry : (es : List Entry) → Linked Before es → Linked Before (map read_entry es)
Before-read_entry [] h = h
Before-read_entry (e ∷ []) h = h
Before-read_entry (e ∷ f ∷ es) h = (h.0, Before-read_entry (f ∷ es) h.1)

-- Entries in increasing order of their paths, whose statuses are ones that git reports and whose
-- paths consist of plain components without a NUL, are read back from their print as they are,
-- except that the status of a file that both sides deleted comes back as both added.
pub from_str-print :
    (es : List Entry)
    → All IsPrintable es
    → Linked Before es
    → from_str (print es) ≡ map read_entry es
unfolding from_str
from_str-print es h k =
    let order = Before-read_entry es k in
    ap (λ (fs : List Entry). dedup (sorted fs)) (parse_entries-print es h)
    ∙ ap dedup (sorted-Before (map read_entry es) order)
    ∙ dedup-Before (map read_entry es) order

dedup-recreated :
    (p : RelPath) (first second : FileStatus)
    → merged second first ≡ deleted_and_added
    → dedup (sorted ((p, first) ∷ (p, second) ∷ [])) ≡ (p, deleted_and_added) ∷ []
unfolding dedup sorted
dedup-recreated p first second h =
    ap dedup (insert_sorted-NotBehind (p, first) (p, second) [] (λ n. cc (cmp_self p)))
    ∙ rw (str_eq_self p) (ap (λ (m : FileStatus). (p, m) ∷ []) h)

from_str-pair :
    (p : RelPath) (first second : FileStatus)
    → IsPrintable (p, first)
    → IsPrintable (p, second)
    → reread first ≡ first
    → reread second ≡ second
    → merged second first ≡ deleted_and_added
    → from_str (print ((p, first) ∷ (p, second) ∷ [])) ≡ (p, deleted_and_added) ∷ []
unfolding from_str
from_str-pair p first second h k a b m =
    ap (λ (fs : List Entry). dedup (sorted fs))
      (parse_entries-print ((p, first) ∷ (p, second) ∷ []) (h, (k, tt)) ∙ rw (a, b) refl)
    ∙ dedup-recreated p first second m

-- A file that was deleted from the index and made anew is reported twice, in either order, and is
-- read as one entry that says so, for every path of plain components without a NUL.
pub from_str-recreated :
    (p : RelPath)
    → IsNormal p
    → Lacks 0 p
    → (from_str (print ((p, index StatusCode.deleted) ∷ (p, FileStatus.untracked) ∷ []))
        ≡ (p, deleted_and_added) ∷ [])
      × (from_str (print ((p, FileStatus.untracked) ∷ (p, index StatusCode.deleted) ∷ []))
          ≡ (p, deleted_and_added) ∷ [])
unfolding merged is_untracked
from_str-recreated p h k =
    let gone : IsPrintable (p, index StatusCode.deleted) = record {
      reported = refl;
      normal = h;
      no_nul = k;
    } in
    let new : IsPrintable (p, FileStatus.untracked) = record {
      reported = refl;
      normal = h;
      no_nul = k;
    } in
    (from_str-pair p _ _ gone new refl refl refl, from_str-pair p _ _ new gone refl refl refl)
