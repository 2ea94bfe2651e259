-- ===== src/Git/Report.antt =====
-- crates/git/src/status.rs, `GitStatus::from_str`: a whole report of `git status`. An entry is cut
-- by code points where the source cuts by bytes: a status that is read consists of ASCII bytes, and
-- an entry that starts with anything else is dropped either way.
use zaku.Prelude.{
  Bool, false, not, ◌&&◌, ◌||◌, Option, none, some, List, [], ◌∷◌, ◌==◌, if◌then◌else◌, ok, err,
  filter_map,
}
use zaku.Order.{Ordering}
use zaku.Text.{Str, str_eq, split, ends_with}
use zaku.RelPath.{RelPath, separator, unix, cmp}
use zaku.Git.{FileStatus, StatusCode, from_bytes, is_code, is_untracked}

-- `RepoPath` wraps a `RelPath`.
abbrev pub RepoPath : Type 0
RepoPath = RelPath

abbrev pub Entry : Type 0
Entry = RepoPath × FileStatus

-- The entry of one piece of the report; what `log_err` drops is dropped.
unfoldable pub parse_entry : Str → Option Entry
parse_entry (first ∷ second ∷ sep ∷ path) =
    if not (sep == b' ')
    then none
    else if ends_with separator path
    then none
    else elim (from_bytes first second) [
      | err e ↦ none
      | ok status ↦ elim (unix path) [ err e ↦ none | ok rel_path ↦ some (rel_path, status) ]
    ]
parse_entry _ = none

-- `sort_unstable_by` on the paths. How it orders entries of one path is left open by the library;
-- here they keep their order.
abbrev pub insert_sorted : Entry → List Entry → List Entry
insert_sorted e [] = e ∷ []
insert_sorted e (f ∷ es) = elim (cmp e.0 f.0) [
  | Ordering.gt ↦ f ∷ insert_sorted e es
  | _ ↦ e ∷ f ∷ es
]

unfoldable pub sorted : List Entry → List Entry
sorted [] = []
sorted (e ∷ es) = insert_sorted e (sorted es)

abbrev pub deleted_and_added : FileStatus
deleted_and_added =
    FileStatus.tracked
      record { index_status = StatusCode.deleted; worktree_status = StatusCode.added }

-- A match with the constant `INDEX_DELETED`.
abbrev pub is_index_deleted : FileStatus → Bool
is_index_deleted (FileStatus.tracked codes) =
    is_code codes.index_status StatusCode.deleted
    && is_code codes.worktree_status StatusCode.unmodified
is_index_deleted _ = false

-- What the retained entry becomes when a second one of its path is taken out. The two other cases
-- of the source differ only in a warning.
unfoldable pub merged : FileStatus → FileStatus → FileStatus
merged left right =
    if is_index_deleted left && is_untracked right || is_untracked left && is_index_deleted right
    then deleted_and_added
    else right

-- `dedup_by`: `right` is the entry that was retained last.
abbrev pub dedup_from : Entry → List Entry → List Entry
dedup_from right [] = right ∷ []
dedup_from right (left ∷ rest) =
    if str_eq left.0 right.0
    then dedup_from (right.0, merged left.1 right.1) rest
    else right ∷ dedup_from left rest

unfoldable pub dedup : List Entry → List Entry
dedup [] = []
dedup (e ∷ es) = dedup_from e es

unfoldable pub parse_entries : Str → List Entry
parse_entries output = filter_map parse_entry (split 0 output)

-- `GitStatus::from_str`, which never fails.
unfoldable pub from_str : Str → List Entry
from_str output = dedup (sorted (parse_entries output))
