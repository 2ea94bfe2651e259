-- ===== src/Git.antt =====
-- crates/git/src/status.rs: the status of a file as `git status --porcelain -z` reports it, and
-- what the panels ask of it. The children count statuses and read a whole report.
pub mod Bytes
pub mod Decode
pub mod Summary
pub mod Counting
pub mod Report
pub mod Sorted
pub mod Dedup
pub mod Print
mod Tests
use zaku.Prelude.{
  ℕ, Bool, true, false, not, ◌&&◌, ◌||◌, Option, none, some, ◌==◌, if◌then◌else◌, Result, ok, err,
  ◌>>=◌,
}

pub data UnmergedStatusCode : Type 0 where
  head_added head_deleted head_updated : UnmergedStatusCode

pub record UnmergedStatus : Type 0 where
  pub first_head : UnmergedStatusCode
  pub second_head : UnmergedStatusCode

pub data StatusCode : Type 0 where
  modified type_changed added deleted renamed copied unmodified : StatusCode

pub record TrackedStatus : Type 0 where
  pub index_status : StatusCode
  pub worktree_status : StatusCode

pub data FileStatus : Type 0 where
  untracked ignored : FileStatus
  unmerged : UnmergedStatus → FileStatus
  tracked : TrackedStatus → FileStatus

-- The errors, with the byte that their message names.
pub data StatusError : Type 0 where
  invalid_unmerged_code invalid_code : ℕ → StatusError

abbrev pub worktree : StatusCode → FileStatus
worktree code = tracked record { index_status = unmodified; worktree_status = code }

abbrev pub index : StatusCode → FileStatus
index code = tracked record { index_status = code; worktree_status = unmodified }

unfoldable pub unmerged_code_from_byte : ℕ → Result StatusError UnmergedStatusCode
unmerged_code_from_byte byte =
    if byte == b'A'
    then ok head_added
    else if byte == b'D'
    then ok head_deleted
    else if byte == b'U'
    then ok head_updated
    else err (invalid_unmerged_code byte)

unfoldable pub code_from_byte : ℕ → Result StatusError StatusCode
code_from_byte byte =
    if byte == b'M'
    then ok modified
    else if byte == b'T'
    then ok type_changed
    else if byte == b'A'
    then ok added
    else if byte == b'D'
    then ok deleted
    else if byte == b'R'
    then ok renamed
    else if byte == b'C'
    then ok copied
    else if byte == b' '
    then ok unmodified
    else err (invalid_code byte)

-- `FileStatus::from_bytes`, its cases in the order of the source.
unfoldable pub from_bytes : ℕ → ℕ → Result StatusError FileStatus
from_bytes first second =
    if (first == b'?') && (second == b'?')
    then ok untracked
    else if (first == b'!') && (second == b'!')
    then ok ignored
    else if (first == b'A') && (second == b'A') || (first == b'D') && (second == b'D')
    then ok (unmerged record { first_head = head_added; second_head = head_added })
    else if second == b'U'
    then (unmerged_code_from_byte first >>= λ head.
        ok (unmerged record { first_head = head; second_head = head_updated }))
    else if first == b'U'
    then (unmerged_code_from_byte second >>= λ head.
        ok (unmerged record { first_head = head_updated; second_head = head }))
    else code_from_byte first >>= λ in_index. code_from_byte second >>= λ in_worktree.
        ok (tracked record { index_status = in_index; worktree_status = in_worktree })

pub data StageStatus : Type 0 where
  staged unstaged partially_staged : StageStatus

abbrev pub is_code : StatusCode → StatusCode → Bool
is_code modified modified = true
is_code type_changed type_changed = true
is_code added added = true
is_code deleted deleted = true
is_code renamed renamed = true
is_code copied copied = true
is_code unmodified unmodified = true
is_code _ _ = false

unfoldable pub staging : FileStatus → StageStatus
staging untracked = unstaged
staging ignored = unstaged
staging (unmerged heads) = unstaged
staging (tracked codes) =
    if is_code codes.index_status unmodified
    then unstaged
    else if is_code codes.worktree_status unmodified
    then staged
    else partially_staged

unfoldable pub is_conflicted : FileStatus → Bool
is_conflicted (unmerged heads) = true
is_conflicted _ = false

unfoldable pub is_ignored : FileStatus → Bool
is_ignored ignored = true
is_ignored _ = false

unfoldable pub is_modified : FileStatus → Bool
is_modified (tracked codes) =
    is_code codes.index_status modified || is_code codes.worktree_status modified
is_modified _ = false

unfoldable pub is_created : FileStatus → Bool
is_created (tracked codes) = is_code codes.index_status added || is_code codes.worktree_status added
is_created untracked = true
is_created _ = false

unfoldable pub is_deleted : FileStatus → Bool
is_deleted (tracked codes) =
    is_code codes.index_status deleted && not (is_code codes.worktree_status added)
    || is_code codes.worktree_status deleted
is_deleted _ = false

unfoldable pub is_untracked : FileStatus → Bool
is_untracked untracked = true
is_untracked _ = false

unfoldable pub has_changes : FileStatus → Bool
has_changes status =
    is_modified status
    || is_created status
    || is_deleted status
    || is_untracked status
    || is_conflicted status

abbrev pub is_fully_staged : StageStatus → Bool
is_fully_staged staged = true
is_fully_staged _ = false

abbrev pub is_fully_unstaged : StageStatus → Bool
is_fully_unstaged unstaged = true
is_fully_unstaged _ = false

abbrev pub has_staged : StageStatus → Bool
has_staged staged = true
has_staged partially_staged = true
has_staged unstaged = false

abbrev pub has_unstaged : StageStatus → Bool
has_unstaged unstaged = true
has_unstaged partially_staged = true
has_unstaged staged = false

abbrev pub as_bool : StageStatus → Option Bool
as_bool staged = some true
as_bool unstaged = some false
as_bool partially_staged = none
