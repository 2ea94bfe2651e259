-- ===== src/Git/Tests.antt =====
-- The theorems on concrete reports, and runs of the parser.
use zaku.Prelude.{◌≡◌, refl, [], ◌∷◌, List, All, ok, err}
use zaku.Text.{Str, text}
use zaku.Text.Split.{Lacks}
use zaku.FilePath.{posix, is_absolute}
use zaku.RelPath.{
  RelPath, borrowed, new, trimmed, strip_prefixes, strip_suffixes, with_slashes, finish, components,
  collect, next, cmp,
}
use zaku.RelPath.Components.{IsNormal}
use zaku.RelPath.New.{new-IsNormal}
use zaku.Git.{
  FileStatus, StatusCode, from_bytes, code_from_byte, unmerged_code_from_byte, invalid_code,
  invalid_unmerged_code,
}
use zaku.Git.Bytes.{both_deleted, both_added}
use zaku.Git.Decode.{ReadAs, bytes-from_bytes}
use zaku.Git.Report.{Entry, from_str}
use zaku.Git.Sorted.{HasNormalPath, Linked, Before}
use zaku.Git.Dedup.{from_str-Linked}
use zaku.Git.Print.{print, IsPrintable, from_str-print}

abbrev renamed_and_modified : FileStatus
renamed_and_modified =
    FileStatus.tracked
      record { index_status = StatusCode.renamed; worktree_status = StatusCode.modified }

abbrev alpha : RelPath
alpha = text "alpha"

abbrev beta : RelPath
beta = text "beta"

new-alpha : new alpha posix ≡ ok (borrowed alpha)
unfolding new trimmed strip_prefixes strip_suffixes is_absolute with_slashes finish components
    collect next
new-alpha = refl

new-beta : new beta posix ≡ ok (borrowed beta)
unfolding new trimmed strip_prefixes strip_suffixes is_absolute with_slashes finish components
    collect next
new-beta = refl

alpha-IsNormal : IsNormal alpha
alpha-IsNormal = new-IsNormal alpha posix {r = borrowed alpha} new-alpha

beta-IsNormal : IsNormal beta
beta-IsNormal = new-IsNormal beta posix {r = borrowed beta} new-beta

abbrev alpha-no_nul : Lacks 0 alpha
alpha-no_nul = (refl, (refl, (refl, (refl, (refl, tt)))))

abbrev two : List Entry
two = (alpha, FileStatus.untracked) ∷ (beta, both_deleted) ∷ []

two-IsPrintable : All IsPrintable two
two-IsPrintable = (
  record { reported = refl; normal = alpha-IsNormal; no_nul = alpha-no_nul },
  (
    record { reported = refl; normal = beta-IsNormal; no_nul = (refl, (refl, (refl, (refl, tt)))) },
    tt,
  ),
)

two-Linked : Linked Before two
unfolding cmp components collect next
two-Linked = (refl, (tt, tt))

from_str-print_example :
    from_str (print two) ≡ (alpha, FileStatus.untracked) ∷ (beta, both_added) ∷ []
from_str-print_example = from_str-print two two-IsPrintable two-Linked

abbrev messy : Str
messy = text "?? beta\0 M alpha\0?? gone/\0?? beta\0"

from_str-Linked_example : Linked Before (from_str messy) × All HasNormalPath (from_str messy)
from_str-Linked_example = from_str-Linked messy

deleted_twice : from_bytes b'D' b'D' ≡ ok both_added
unfolding from_bytes
deleted_twice = refl

bytes-from_bytes_example : ReadAs b'D' b'D' both_added
bytes-from_bytes_example = bytes-from_bytes b'D' b'D' both_added deleted_twice

-- The errors name the byte that is not a code.
from_bytes_bad : from_bytes b'X' b' ' ≡ err (invalid_code b'X')
unfolding from_bytes code_from_byte
from_bytes_bad = refl

from_bytes_bad_head : from_bytes b'M' b'U' ≡ err (invalid_unmerged_code b'M')
unfolding from_bytes unmerged_code_from_byte
from_bytes_bad_head = refl

abbrev statuses : List FileStatus
statuses = FileStatus.untracked ∷ FileStatus.ignored ∷ both_added ∷ renamed_and_modified ∷ []
