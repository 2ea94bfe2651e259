-- ===== src/AppVersion/Tests.antt =====
-- Versions that are read and printed, with a semver package of two prereleases, the empty one and
-- `preview.1`.
use zaku.Prelude.{
  ℕ, ◌<◌, ◌≡◌, refl, ap, ◌∙◌, Bool, true, false, ◌&&◌, none, some, List, [], ◌∷◌, ltb,
  if◌then◌else◌, Result, ok, err, inl, inr, Bool-cases, Option-cases, arith,
}
use mathlib.Core.Path.{subst}
use mathlib.Core.List.{append-nil}
use zaku.Text.{Str, text, split, split_once, str_eq}
use zaku.Text.Split.{Lacks, split_once-append, split_once-Lacks}
use zaku.NaturalSort.{is_ascii_digit, value_from}
use zaku.AppVersion.{AppVersion}
use zaku.AppVersion.Format.{
  Version, Packages, invalid_format, u64_size, decimal, two_numbers, three_numbers, display,
  from_str, normalized_version, is_supported,
}
use zaku.AppVersion.Documented.{IsU64, IsDocumented, to_string}
use zaku.AppVersion.Numbers.{decimal-value, split-three_numbers, three_numbers-Lacks}
use zaku.AppVersion.RoundTrip.{from_str-display}

abbrev preview_text : Bool → Str
preview_text false = []
preview_text true = text "preview.1"

abbrev with_values : ℕ → ℕ → ℕ → Bool → Result ℕ (Version Bool)
with_values major minor patch pre =
    if ltb major u64_size && ltb minor u64_size && ltb patch u64_size
    then ok (major, (minor, (patch, pre)))
    else err 0

abbrev with_numbers : List Str → Bool → Result ℕ (Version Bool)
with_numbers (major ∷ minor ∷ patch ∷ []) pre =
    with_values (value_from 0 major) (value_from 0 minor) (value_from 0 patch) pre
with_numbers [] pre = err 1
with_numbers (major ∷ []) pre = err 1
with_numbers (major ∷ minor ∷ []) pre = err 1
with_numbers (major ∷ minor ∷ patch ∷ part ∷ parts) pre = err 1

abbrev parse_preview : Str → Result ℕ (Version Bool)
parse_preview s = elim (split_once b'-' s) [
  | none ↦ with_numbers (split b'.' s) false
  | some (core, pre) ↦
      if str_eq pre (text "preview.1") then with_numbers (split b'.' core) true else err 2
]

-- The only date is a day of July.
abbrev packages : Packages Bool ℕ
packages = record {
  as_str = preview_text;
  parse = parse_preview;
  reads_date = λ date. if str_eq date (text "2026-07-19") then some date else none;
}

same_result : {r : Result ℕ (Version Bool)} {v w : Version Bool} → r ≡ ok v → r ≡ ok w → v ≡ w
same_result e h = cc

with_values-IsU64 :
    (major minor patch : ℕ) (pre : Bool) (version : Version Bool)
    → with_values major minor patch pre ≡ ok version
    → IsU64 version
with_values-IsU64 major minor patch pre version e =
    let whole : (major < u64_size) × (minor < u64_size) × (patch < u64_size) = ground arith in
    let read : with_values major minor patch pre ≡ ok (major, (minor, (patch, pre))) =
      ground arith in
    let values : (major, (minor, (patch, pre))) ≡ version = same_result read e in
    subst IsU64 values whole

with_numbers-IsU64 :
    (parts : List Str) (pre : Bool) (version : Version Bool)
    → with_numbers parts pre ≡ ok version
    → IsU64 version
with_numbers-IsU64 (major ∷ minor ∷ patch ∷ []) pre version e =
    with_values-IsU64 (value_from 0 major) (value_from 0 minor) (value_from 0 patch) pre version e
with_numbers-IsU64 [] pre version e = absurd cc
with_numbers-IsU64 (major ∷ []) pre version e = absurd cc
with_numbers-IsU64 (major ∷ minor ∷ []) pre version e = absurd cc
with_numbers-IsU64 (major ∷ minor ∷ patch ∷ part ∷ parts) pre version e = absurd cc

parse_preview-IsU64 :
    (s : Str) (version : Version Bool) → parse_preview s ≡ ok version → IsU64 version
parse_preview-IsU64 s version e = elim (Option-cases (split_once b'-' s)) [
  | inl whole ↦ with_numbers-IsU64 (split b'.' s) false version (ground arith)
  | inr ((core, pre), parts) ↦ elim (Bool-cases (str_eq pre (text "preview.1"))) [
    | inl same ↦ with_numbers-IsU64 (split b'.' core) true version cc
    | inr other ↦ absurd cc
  ]
]

with_numbers-decimal :
    (major minor patch : ℕ) (pre : Bool)
    → major < u64_size
    → minor < u64_size
    → patch < u64_size
    → with_numbers (split b'.' (three_numbers major minor patch)) pre
      ≡ ok (major, (minor, (patch, pre)))
with_numbers-decimal major minor patch pre h k l =
    rw
      (
        split-three_numbers major minor patch,
        decimal-value major,
        decimal-value minor,
        decimal-value patch,
      )
      (ground arith)

parse_preview-to_string :
    (version : Version Bool)
    → IsU64 version
    → parse_preview (to_string packages version) ≡ ok version
parse_preview-to_string (major, (minor, (patch, false))) (h, k, l) =
    ap parse_preview (append-nil (three_numbers major minor patch))
    ∙ rw
        (
          parse_preview,
          split_once-Lacks b'-' (three_numbers major minor patch)
              (three_numbers-Lacks b'-' major minor (omega arith) patch),
        )
        (with_numbers-decimal major minor patch false h k l)
parse_preview-to_string (major, (minor, (patch, true))) (h, k, l) =
    rw
      (
        parse_preview,
        split_once-append b'-' (three_numbers major minor patch) (text "preview.1")
            (three_numbers-Lacks b'-' major minor (omega arith) patch),
      )
      (with_numbers-decimal major minor patch true h k l)

no_plus : (pre : Bool) → Lacks b'+' (preview_text pre)
no_plus false = tt
no_plus true = (refl, (refl, (refl, (refl, (refl, (refl, (refl, (refl, (refl, tt)))))))))

documented : IsDocumented packages
documented = record {
  parse-to_string = parse_preview-to_string;
  parse-IsU64 = parse_preview-IsU64;
  no_plus = no_plus;
}

abbrev preview_version : AppVersion Bool
preview_version = record { major = 26; minor = 2; patch = 0; prerelease = true }

reads_preview : from_str packages (text "26.2.0-preview.1") ≡ ok preview_version
unfolding from_str normalized_version is_ascii_digit
reads_preview = refl

prints_preview : display packages preview_version ≡ text "26.2-preview.1"
unfolding display two_numbers decimal
prints_preview = refl

prints_patch :
    display packages (record { major = 26; minor = 1; patch = 12; prerelease = false })
    ≡ text "26.1.12"
unfolding display two_numbers three_numbers decimal
prints_patch = refl

rejects_build : from_str packages (text "26.1.0+build") ≡ err invalid_format
unfolding from_str
rejects_build = refl

rejects_year : from_str packages (text "26") ≡ err invalid_format
unfolding from_str normalized_version
rejects_year = refl

rejects_four : from_str packages (text "26.1.0.1") ≡ err invalid_format
unfolding from_str normalized_version
rejects_four = refl

supports_nightly : is_supported packages 0 (split b'.' (text "nightly.2026-07-19")) ≡ true
supports_nightly = refl

supports_no_patch : is_supported packages 1 (split b'.' (text "nightly.2026-07-19")) ≡ false
supports_no_patch = refl

supports_dev : is_supported packages 0 (split b'.' (text "dev.1000.aaaaaaaa")) ≡ true
unfolding is_ascii_digit
supports_dev = refl

supports_no_capitals : is_supported packages 0 (split b'.' (text "dev.1000.AAAAAAAA")) ≡ false
unfolding is_ascii_digit
supports_no_capitals = refl

supports_no_zero : is_supported packages 0 (split b'.' (text "preview.0")) ≡ false
unfolding is_ascii_digit
supports_no_zero = refl

from_str-display_example : from_str packages (display packages preview_version) ≡ ok preview_version
from_str-display_example =
    from_str-display packages documented (text "26.2.0-preview.1") preview_version reads_preview
