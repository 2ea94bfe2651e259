-- ===== src/Text/Trim.antt =====
-- `str::trim` of the standard library.
use zaku.Prelude.{ℕ, Bool, ◌&&◌, ◌||◌, [], ◌∷◌, leb, ◌==◌, if◌then◌else◌}
use zaku.Text.{Str}

-- `char::is_whitespace`
unfoldable pub is_whitespace : ℕ → Bool
is_whitespace c =
    leb 9 c && leb c 13
    || c == 0x20
    || c == 0x85
    || c == 0xa0
    || c == 0x1680
    || leb 0x2000 c && leb c 0x200a
    || c == 0x2028
    || c == 0x2029
    || c == 0x202f
    || c == 0x205f
    || c == 0x3000

-- `str::trim`
unfoldable pub trim_start : Str → Str
unfolding is_whitespace
trim_start [] = []
trim_start (c ∷ s) = let rest = trim_start s in if is_whitespace c then rest else c ∷ s

abbrev pub trimmed_onto : ℕ → Str → Str
trimmed_onto c [] = if is_whitespace c then [] else c ∷ []
trimmed_onto c (d ∷ s) = c ∷ d ∷ s

unfoldable pub trim_end : Str → Str
unfolding is_whitespace
trim_end [] = []
trim_end (c ∷ s) = trimmed_onto c (trim_end s)

unfoldable pub trim : Str → Str
unfolding trim_start trim_end
trim s = trim_end (trim_start s)
