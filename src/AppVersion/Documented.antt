-- ===== src/AppVersion/Documented.antt =====
-- What the semver package promises of the calls of crates/metadata/src/metadata.rs.
use zaku.Prelude.{◌<◌, ◌≡◌, true, ◌++◌, ok}
use zaku.Text.{Str}
use zaku.Text.Split.{Lacks}
use zaku.AppVersion.{AppVersion, to_semver}
use zaku.AppVersion.Format.{
  Version, Packages, u64_size, three_numbers, has_supported_prerelease, prerelease_text,
}

-- `Display` of a `semver::Version` without build metadata.
abbrev pub to_string : {P E : Type 0} → Packages P E → Version P → Str
to_string packages (major, (minor, (patch, pre))) =
    three_numbers major minor patch ++ prerelease_text packages pre

abbrev pub IsU64 : {P : Type 0} → Version P → Type 0
IsU64 (major, (minor, (patch, pre))) = (major < u64_size) × (minor < u64_size) × (patch < u64_size)

-- What the semver package documents: a version is read back from what it prints, its numbers are
-- 64 bits wide, and a prerelease is letters, digits, dots and dashes, so that no plus stands in it.
pub record IsDocumented {P E : Type 0} (packages : Packages P E) : Type 0 where
  pub parse-to_string :
      (version : Version P)
      → IsU64 version
      → packages.parse (to_string packages version) ≡ ok version
  pub parse-IsU64 : (s : Str) (version : Version P) → packages.parse s ≡ ok version → IsU64 version
  pub no_plus : (pre : P) → Lacks b'+' (packages.as_str pre)

-- The versions that `from_str` gives.
abbrev pub IsVersion : {P E : Type 0} → Packages P E → AppVersion P → Type 0
IsVersion packages version =
    IsU64 (to_semver version) × (has_supported_prerelease packages (to_semver version) ≡ true)
