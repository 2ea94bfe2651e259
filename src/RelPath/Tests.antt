-- ===== src/RelPath/Tests.antt =====
-- Runs of the path functions, and their theorems at concrete paths.
use zaku.Prelude.{◌≡◌, ◌↔◌, refl, true, some, List, [], ◌∷◌, ◌++◌, ok, err, ◌>>=◌, if◌then◌else◌}
use zaku.Text.{Str, text}
use zaku.FilePath.{posix, windows, is_absolute}
use zaku.RelPath.{
  RelPath, absolute_path, not_relative, borrowed, owned, as_ref, new, unix, components,
  components_rev, strip_prefix, starts_with, trimmed, strip_prefixes, strip_suffixes, with_slashes,
  finish, normalize, normalize_component, pop, push, collect, next, next_back,
}
use zaku.RelPath.Components.{IsNormal}
use zaku.RelPath.Stack.{resolve, resolved}
use zaku.RelPath.Trim.{spelled}
use zaku.RelPath.New.{new_lem, new-IsNormal}
use zaku.RelPath.Unix.{unix-new}
use zaku.RelPath.Join.{starts_with_iff}

abbrev messy : Str
messy = text "./foo/bar/../baz/./quux/"

abbrev tidy : RelPath
tidy = text "foo/baz/quux"

abbrev foo : RelPath
foo = text "foo"

new-messy : new messy posix ≡ ok (owned tidy)
unfolding new trimmed strip_prefixes strip_suffixes is_absolute with_slashes finish components
    collect next normalize normalize_component pop push
new-messy = refl

new-tidy : new tidy posix ≡ ok (borrowed tidy)
unfolding new trimmed strip_prefixes strip_suffixes is_absolute with_slashes finish components
    collect next
new-tidy = refl

new-foo : new foo posix ≡ ok (borrowed foo)
unfolding new trimmed strip_prefixes strip_suffixes is_absolute with_slashes finish components
    collect next
new-foo = refl

new_windows : new (text ".\\foo\\bar") windows ≡ ok (owned (text "foo/bar"))
unfolding new trimmed strip_prefixes strip_suffixes is_absolute with_slashes finish components
    collect next
new_windows = refl

new_absolute : new (text "//") posix ≡ err absolute_path
unfolding new trimmed strip_prefixes strip_suffixes is_absolute
new_absolute = refl

new_above : new (text "a/../..") posix ≡ err not_relative
unfolding new trimmed strip_prefixes strip_suffixes is_absolute with_slashes finish components
    collect next normalize normalize_component pop push
new_above = refl

tidy-IsNormal : IsNormal tidy
tidy-IsNormal = new-IsNormal messy posix {r = owned tidy} new-messy

-- On Windows a drive behind `..` is taken for a component: the result is an absolute path.
new_drive : new (text "a/../C:/b") windows ≡ ok (owned (text "C:/b"))
unfolding new trimmed strip_prefixes strip_suffixes is_absolute with_slashes finish components
    collect next normalize normalize_component pop push
new_drive = refl

drive_is_absolute : is_absolute (text "C:/b") windows ≡ true
unfolding is_absolute
drive_is_absolute = refl

new_lem_example : (new messy posix >>= λ r. ok (as_ref r)) ≡ (
    if is_absolute (trimmed messy posix) posix
    then err absolute_path
    else resolved (resolve [] (components (as_ref (spelled messy posix)))))
new_lem_example = new_lem messy posix

foo-IsNormal : IsNormal foo
foo-IsNormal = new-IsNormal foo posix {r = borrowed foo} new-foo

unix-new_example : unix tidy ≡ ok tidy
unix-new_example = unix-new messy posix {r = owned tidy} new-messy

strip_tidy : strip_prefix tidy foo ≡ some (text "baz/quux")
unfolding strip_prefix
strip_tidy = refl

starts_with_iff_example :
    (starts_with tidy foo ≡ true) ↔ ((cs : List Str) × (components tidy ≡ components foo ++ cs))
starts_with_iff_example = starts_with_iff tidy foo tidy-IsNormal foo-IsNormal

-- A separator at the end shows the two directions of the iterator apart.
components_trailing : components (text "foo/") ≡ text "foo" ∷ []
unfolding components collect next
components_trailing = refl

components_rev_trailing : components_rev (text "foo/") ≡ [] ∷ text "foo" ∷ []
unfolding components_rev collect next_back
components_rev_trailing = refl
