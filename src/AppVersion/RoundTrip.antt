-- ===== src/AppVersion/RoundTrip.antt =====
-- `AppVersion::from_str` on what `AppVersion::display` prints.
use mathlib.Core.Path.{subst}
use mathlib.Core.List.{append_assoc, append-nil}
use zaku.Prelude.{
  ℕ, ◌≡◌, refl, sym, ap, ◌∙◌, inl, inr, none, some, ◌∷◌, ◌++◌, length, ◌==◌, ==_iff, if◌then◌else◌,
  ok, All-append, ◌↔◌, if-both, Bool-cases, Result-cases, Option-cases, arith,
}
use zaku.Text.{Str, text, is_empty, contains, split}
use zaku.Text.Split.{Lacks, split_once-Lacks, split_once-append}
use zaku.AppVersion.{AppVersion, to_semver, from_semver}
use zaku.AppVersion.Numbers.{
  contains-Lacks, two_numbers-Lacks, three_numbers-Lacks, count-two_numbers, split-three_numbers,
}
use zaku.AppVersion.Documented.{to_string, IsU64, IsDocumented, IsVersion}
use zaku.AppVersion.Format.{
  Version, Packages, decimal, has_supported_prerelease, prerelease_text, display, split_prerelease,
  normalized_version, checked_version, parsed_version, from_str, two_numbers, three_numbers,
}

module _ {P E : Type 0} (packages : Packages P E) where
  split_prerelease-none :
      (core : Str) → Lacks b'-' core → split_prerelease packages core ≡ (core, none)
  split_prerelease-none core h = rw (split_prerelease, split_once-Lacks b'-' core h)

  split_prerelease-some :
      (core prerelease : Str)
      → Lacks b'-' core
      → split_prerelease packages (core ++ b'-' ∷ prerelease) ≡ (core, some prerelease)
  split_prerelease-some core prerelease h =
      rw (split_prerelease, split_once-append b'-' core prerelease h)

  module _ (core : Str) (pre : P) (h : Lacks b'-' core) where
    normalized_version-two :
        length (split b'.' core) ≡ 2
        → normalized_version packages (core ++ prerelease_text packages pre)
          ≡ some (core ++ text ".0" ++ prerelease_text packages pre)
    unfolding normalized_version
    normalized_version-two two = elim (Bool-cases (is_empty (packages.as_str pre))) [
      | inl e ↦
          rw (e, append-nil core, split_prerelease-none core h, two)
            (ap some (sym (append-nil (core ++ text ".0"))))
      | inr e ↦
          rw (e, split_prerelease-some core (packages.as_str pre) h, two)
            (ap some (
              append_assoc core (text ".0-") (packages.as_str pre)
              ∙ sym (append_assoc core (text ".0") (b'-' ∷ packages.as_str pre))))
    ]

    normalized_version-three :
        length (split b'.' core) ≡ 3
        → normalized_version packages (core ++ prerelease_text packages pre)
          ≡ some (core ++ prerelease_text packages pre)
    unfolding normalized_version
    normalized_version-three three = elim (Bool-cases (is_empty (packages.as_str pre))) [
      | inl e ↦ rw (e, append-nil core, split_prerelease-none core h, three) refl
      | inr e ↦ rw (e, split_prerelease-some core (packages.as_str pre) h, three) refl
    ]

module _ {P E : Type 0} (packages : Packages P E) (documented : IsDocumented packages) where
  checked_version-IsVersion :
      (read : Version P) (version : AppVersion P)
      → IsU64 read
      → checked_version packages read ≡ ok version
      → IsVersion packages version
  checked_version-IsVersion read version h e =
      elim (Bool-cases (has_supported_prerelease packages read)) [
        | inl supported ↦
            let same : from_semver read ≡ version = cc in
            subst (IsVersion packages) same (h, supported)
        | inr unsupported ↦ absurd cc
      ]

  parsed_version-IsVersion :
      (normalized : Str) (version : AppVersion P)
      → parsed_version packages normalized ≡ ok version
      → IsVersion packages version
  parsed_version-IsVersion normalized version e = elim (Result-cases (packages.parse normalized)) [
    | inl (error, failed) ↦ absurd cc
    | inr (read, k) ↦
        checked_version-IsVersion read version (documented.parse-IsU64 normalized read k) cc
  ]

  from_str-IsVersion :
      (s : Str) (version : AppVersion P)
      → from_str packages s ≡ ok version
      → IsVersion packages version
  unfolding from_str
  from_str-IsVersion s version e = elim (Bool-cases (contains b'+' s)) [
    | inl plus ↦ absurd cc
    | inr no_plus ↦ elim (Option-cases (normalized_version packages s)) [
      | inl failed ↦ absurd cc
      | inr (normalized, k) ↦ parsed_version-IsVersion normalized version cc
    ]
  ]

  with_patch :
      (major minor patch : ℕ)
      → patch ≡ 0
      → two_numbers major minor ++ text ".0" ≡ three_numbers major minor patch
  unfolding three_numbers decimal
  with_patch major minor patch e = rw (e) refl

  normalized_version-display :
      (version : AppVersion P)
      → normalized_version packages (display packages version)
        ≡ some (to_string packages (to_semver version))
  unfolding display
  normalized_version-display version = elim (Bool-cases (version.patch == 0)) [
    | inl e ↦ rw (e) (
        normalized_version-two packages (two_numbers version.major version.minor) version.prerelease
          (two_numbers-Lacks b'-' version.major version.minor (omega arith))
          (count-two_numbers version.major version.minor)
        ∙ ap (λ s. some (s ++ prerelease_text packages version.prerelease))
            (with_patch version.major version.minor version.patch ((==_iff version.patch 0).0 e)))
    | inr e ↦ rw (e) (
        normalized_version-three packages (three_numbers version.major version.minor version.patch)
          version.prerelease
          (three_numbers-Lacks b'-' version.major version.minor (omega arith) version.patch)
          (ap length (split-three_numbers version.major version.minor version.patch)))
  ]

  prerelease_text-Lacks : (pre : P) → Lacks b'+' (prerelease_text packages pre)
  prerelease_text-Lacks pre =
      if-both (Lacks b'+') (is_empty (packages.as_str pre)) tt (refl, documented.no_plus pre)

  display-Lacks : (version : AppVersion P) → Lacks b'+' (display packages version)
  unfolding display
  display-Lacks version =
      All-append _ (if version.patch == 0 then two_numbers version.major version.minor else _) _
        (if-both (Lacks b'+') (version.patch == 0)
          (two_numbers-Lacks b'+' version.major version.minor (omega arith))
          (three_numbers-Lacks b'+' version.major version.minor (omega arith) version.patch))
        (prerelease_text-Lacks version.prerelease)

  from_str-display_iff :
      (version : AppVersion P)
      → (from_str packages (display packages version) ≡ ok version) ↔ IsVersion packages version
  unfolding from_str
  from_str-display_iff version = (
    from_str-IsVersion (display packages version) version,
    λ h.
        rw
          (
            contains-Lacks b'+' (display packages version) (display-Lacks version),
            normalized_version-display version,
            parsed_version,
            documented.parse-to_string (to_semver version) h.0,
            h.1,
          )
          refl,
  )

  -- A version that `from_str` reads is printed by `display` as a text that `from_str` reads back as
  -- the same version, if the semver package does what it documents.
  pub from_str-display :
      (s : Str) (version : AppVersion P)
      → from_str packages s ≡ ok version
      → from_str packages (display packages version) ≡ ok version
  from_str-display s version e = (from_str-display_iff version).1 (from_str-IsVersion s version e)
