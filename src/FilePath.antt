-- ===== src/FilePath.antt =====
-- crates/path/src/path.rs: the two styles of path, and when a text is an absolute path.
use zaku.Prelude.{
  ℕ, Bool, true, false, ◌&&◌, ◌||◌, Option, none, some, List, [], ◌∷◌, get_elem?, leb, ◌==◌,
}
use zaku.Text.{Str}

pub data PathStyle : Type 0 where
  posix windows : PathStyle

abbrev pub primary_separator : PathStyle → Str
primary_separator posix = b'/' ∷ []
primary_separator windows = b'\\' ∷ []

abbrev pub separators : PathStyle → List Str
separators posix = (b'/' ∷ []) ∷ []
separators windows = (b'\\' ∷ []) ∷ (b'/' ∷ []) ∷ []

abbrev pub is_windows : PathStyle → Bool
is_windows posix = false
is_windows windows = true

-- `Option::is_some_and`, and the test of the first character.
abbrev pub is_some_and {ℓ} : {A : Type ℓ} → (A → Bool) → Option A → Bool
is_some_and p none = false
is_some_and p (some a) = p a

abbrev pub starts_with_char : ℕ → Str → Bool
starts_with_char c s = is_some_and (◌== c) (get_elem? s 0)

abbrev pub is_ascii_alphabetic : ℕ → Bool
is_ascii_alphabetic c = leb b'a' c && leb c b'z' || leb b'A' c && leb c b'Z'

-- A drive prefix such as `C:/`.
abbrev pub starts_with_drive : Str → Bool
starts_with_drive path =
    is_some_and is_ascii_alphabetic (get_elem? path 0)
    && is_some_and (◌== b':') (get_elem? path 1)
    && is_some_and (λ separator. separator == b'/' || separator == b'\\') (get_elem? path 2)

unfoldable pub is_absolute : Str → PathStyle → Bool
is_absolute path path_style =
    starts_with_char b'/' path
    || is_windows path_style && (starts_with_char b'\\' path || starts_with_drive path)
