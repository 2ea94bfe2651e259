-- ===== src/AppVersion.antt =====
-- crates/metadata/src/metadata.rs: the version of the application and its order, which is that of
-- the semver package: by the numbers, then by the prerelease. `Prerelease` is that package's type,
-- so it is a parameter with its order.
pub mod Format
pub mod Documented
pub mod Numbers
pub mod RoundTrip
mod Tests
use zaku.Prelude.{ℕ, ◌≡◌, ap, Bool}
use zaku.Order.{Order, product_order, pullback_order, ℕ_order}

-- `Prerelease`, its order by precedence, and whether it is empty.
pub record Semver (P : Type 0) : Type 0 where
  pub pre_order : Order P
  pub pre_is_empty : P → Bool

-- A patch of `None` is the number 0.
pub record AppVersion (P : Type 0) : Type 0 where
  pub major : ℕ
  pub minor : ℕ
  pub patch : ℕ
  pub prerelease : P

module _ {P : Type 0} where
  -- `Version::from(&AppVersion)`
  abbrev pub to_semver : AppVersion P → ℕ × (ℕ × (ℕ × P))
  to_semver version = (version.major, (version.minor, (version.patch, version.prerelease)))

  abbrev pub from_semver : ℕ × (ℕ × (ℕ × P)) → AppVersion P
  from_semver (major, (minor, (patch, prerelease))) = record {
    major = major;
    minor = minor;
    patch = patch;
    prerelease = prerelease;
  }

  pub to_semver_injective : (a b : AppVersion P) → to_semver a ≡ to_semver b → a ≡ b
  to_semver_injective a b e = ap from_semver e

  abbrev pub is_stable : Semver P → AppVersion P → Bool
  is_stable semver version = semver.pre_is_empty version.prerelease

  -- `Ord::cmp`
  abbrev pub version_order : Semver P → Order (AppVersion P)
  version_order semver =
      pullback_order
        (product_order ℕ_order (product_order ℕ_order (product_order ℕ_order semver.pre_order)))
        to_semver to_semver_injective
