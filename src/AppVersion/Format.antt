-- ===== src/AppVersion/Format.antt =====
-- crates/metadata/src/metadata.rs: how a version is read and printed. The semver package's type of
-- a prerelease and its `Version::parse` are parameters, as is what `Date::strptime` of the jiff
-- package reads.
use Prim.Native.Nat.{◌/◌, ◌%◌}
use zaku.Prelude.{
  ℕ, zero, suc, ◌+◌, Bool, true, false, not, ◌&&◌, ◌||◌, Option, none, some, List, [], ◌∷◌, ◌++◌,
  length, any, ltb, leb, ◌==◌, if◌then◌else◌, Result, ok, err,
}
use zaku.Text.{Str, text, is_empty, str_eq, contains, split, split_once}
use zaku.NaturalSort.{is_ascii_digit, value_from}
use zaku.AppVersion.{AppVersion, from_semver}

-- The numbers and the prerelease of a `semver::Version`.
abbrev pub Version : Type 0 → Type 0
Version P = ℕ × (ℕ × (ℕ × P))

-- What the source calls of the packages. `reads_date` is `Date::strptime("%Y-%m-%d", ..)`, with the
-- date that it reads printed again.
pub record Packages (P E : Type 0) : Type 0 where
  pub as_str : P → Str
  pub parse : Str → Result E (Version P)
  pub reads_date : Str → Option Str

pub data AppVersionError (E : Type 0) : Type 0 where
  invalid_format invalid_prerelease : AppVersionError E
  invalid_version : E → AppVersionError E

-- `Display` of a number. Every digit makes the number less, so one more than it is fuel enough.
abbrev pub decimal_from : ℕ → ℕ → Str
decimal_from zero n = []
decimal_from (suc fuel) n = elim (ltb n 10) [
  | true ↦ (b'0' + n) ∷ []
  | false ↦ decimal_from fuel (n / 10) ++ (b'0' + n % 10) ∷ []
]

unfoldable pub decimal : ℕ → Str
decimal n = decimal_from (suc n) n

unfoldable pub two_numbers : ℕ → ℕ → Str
two_numbers major minor = decimal major ++ b'.' ∷ decimal minor

unfoldable pub three_numbers : ℕ → ℕ → ℕ → Str
three_numbers major minor patch = two_numbers major minor ++ b'.' ∷ decimal patch

abbrev pub u64_size : ℕ
u64_size = 18446744073709551616

-- A sign of plus is passed over in front of something.
abbrev pub without_plus : Str → Str
without_plus [] = []
without_plus (c ∷ []) = c ∷ []
without_plus (c ∷ d ∷ s) = if c == b'+' then d ∷ s else c ∷ d ∷ s

-- `parse::<NonZeroU64>().is_ok()`
abbrev pub is_non_zero_u64 : Str → Bool
is_non_zero_u64 s =
    let digits = without_plus s in
    not (is_empty digits)
    && not (any (λ c. not (is_ascii_digit c)) digits)
    && ltb 0 (value_from 0 digits)
    && ltb (value_from 0 digits) u64_size

-- A byte of a commit.
abbrev pub is_hex : ℕ → Bool
is_hex byte = is_ascii_digit byte || leb b'a' byte && leb byte b'f'

abbrev pub is_commit_sha : Str → Bool
is_commit_sha commit_sha = not (any (λ byte. not (is_hex byte)) commit_sha)

module _ {P E : Type 0} (packages : Packages P E) where
  abbrev pub is_date : Str → Bool
  is_date date = elim (packages.reads_date date) [ none ↦ false | some parsed ↦ str_eq parsed date ]

  -- The identifiers of a prerelease, beside the number of the patch.
  abbrev pub is_supported : ℕ → List Str → Bool
  is_supported patch [] = false
  is_supported patch (kind ∷ []) = false
  is_supported patch (kind ∷ number ∷ []) =
      if str_eq kind (text "preview")
      then is_non_zero_u64 number
      else if str_eq kind (text "nightly")
      then patch == 0 && is_date number
      else false
  is_supported patch (kind ∷ build ∷ commit_sha ∷ []) =
      if str_eq kind (text "dev")
      then patch == 0 && is_non_zero_u64 build && is_commit_sha commit_sha
      else false
  is_supported patch (kind ∷ build ∷ commit_sha ∷ identifier ∷ identifiers) = false

  abbrev pub has_supported_prerelease : Version P → Bool
  has_supported_prerelease (major, (minor, (patch, pre))) =
      is_empty (packages.as_str pre) || is_supported patch (split b'.' (packages.as_str pre))

  -- Behind the numbers: a dash and the prerelease, unless that is empty.
  abbrev pub prerelease_text : P → Str
  prerelease_text pre = if is_empty (packages.as_str pre) then [] else b'-' ∷ packages.as_str pre

  -- `AppVersion::display`
  unfoldable pub display : AppVersion P → Str
  display self =
      (if self.patch == 0
        then two_numbers self.major self.minor
        else three_numbers self.major self.minor self.patch)
      ++ prerelease_text self.prerelease

  abbrev pub split_prerelease : Str → Str × Option Str
  split_prerelease version = elim (split_once b'-' version) [
    | none ↦ (version, none)
    | some (core, prerelease) ↦ (core, some prerelease)
  ]

  abbrev pub with_zero_patch : Str → Option Str → Str
  with_zero_patch core none = core ++ text ".0"
  with_zero_patch core (some prerelease) = core ++ text ".0-" ++ prerelease

  -- The text with three numbers, if it has two or three.
  unfoldable pub normalized_version : Str → Option Str
  normalized_version version =
      let (core, prerelease) = split_prerelease version in
      let component_count = length (split b'.' core) in
      if component_count == 2
      then some (with_zero_patch core prerelease)
      else if component_count == 3
      then some version
      else none

  abbrev pub checked_version : Version P → Result (AppVersionError E) (AppVersion P)
  checked_version version =
      if has_supported_prerelease version then ok (from_semver version) else err invalid_prerelease

  abbrev pub parsed_version : Str → Result (AppVersionError E) (AppVersion P)
  parsed_version normalized = elim (packages.parse normalized) [
    | err error ↦ err (invalid_version error)
    | ok version ↦ checked_version version
  ]

  -- `AppVersion::from_str`
  unfoldable pub from_str : Str → Result (AppVersionError E) (AppVersion P)
  from_str version =
      if contains b'+' version then err invalid_format else elim (normalized_version version) [
        | none ↦ err invalid_format
        | some normalized ↦ parsed_version normalized
      ]
