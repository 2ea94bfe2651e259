-- ===== src/Git/Summary.antt =====
-- crates/git/src/status.rs: the counts of statuses that the project tree sums up.
use zaku.Prelude.{ℕ, ◌+◌, ◌-◌, List, [], ◌∷◌, Bool, false, ◌||◌, if◌then◌else◌}
use zaku.Git.{StatusCode, FileStatus, is_code}

pub record TrackedSummary : Type 0 where
  pub added : ℕ
  pub modified : ℕ
  pub deleted : ℕ

pub record GitSummary : Type 0 where
  pub index : TrackedSummary
  pub worktree : TrackedSummary
  pub conflict : ℕ
  pub untracked : ℕ
  pub count : ℕ

abbrev pub tracked_unchanged : TrackedSummary
tracked_unchanged = record { added = 0; modified = 0; deleted = 0 }

abbrev pub unchanged : GitSummary
unchanged = record {
  index = tracked_unchanged;
  worktree = tracked_unchanged;
  conflict = 0;
  untracked = 0;
  count = 0;
}

unfoldable pub to_summary : StatusCode → TrackedSummary
to_summary StatusCode.modified = record { added = 0; modified = 1; deleted = 0 }
to_summary StatusCode.type_changed = record { added = 0; modified = 1; deleted = 0 }
to_summary StatusCode.added = record { added = 1; modified = 0; deleted = 0 }
to_summary StatusCode.deleted = record { added = 0; modified = 0; deleted = 1 }
to_summary StatusCode.renamed = tracked_unchanged
to_summary StatusCode.copied = tracked_unchanged
to_summary StatusCode.unmodified = tracked_unchanged

unfoldable pub summary : FileStatus → GitSummary
summary FileStatus.ignored = unchanged
summary FileStatus.untracked = record {
  index = tracked_unchanged;
  worktree = tracked_unchanged;
  conflict = 0;
  untracked = 1;
  count = 1;
}
summary (FileStatus.unmerged heads) = record {
  index = tracked_unchanged;
  worktree = tracked_unchanged;
  conflict = 1;
  untracked = 0;
  count = 1;
}
summary (FileStatus.tracked codes) = record {
  index = to_summary codes.index_status;
  worktree = to_summary codes.worktree_status;
  conflict = 0;
  untracked = 0;
  count = 1;
}

abbrev pub add_tracked : TrackedSummary → TrackedSummary → TrackedSummary
add_tracked a b = record {
  added = a.added + b.added;
  modified = a.modified + b.modified;
  deleted = a.deleted + b.deleted;
}

abbrev pub sub_tracked : TrackedSummary → TrackedSummary → TrackedSummary
sub_tracked a b = record {
  added = a.added - b.added;
  modified = a.modified - b.modified;
  deleted = a.deleted - b.deleted;
}

unfoldable pub add : GitSummary → GitSummary → GitSummary
add a b = record {
  index = add_tracked a.index b.index;
  worktree = add_tracked a.worktree b.worktree;
  conflict = a.conflict + b.conflict;
  untracked = a.untracked + b.untracked;
  count = a.count + b.count;
}

-- On a field that is smaller than the other's, `usize` panics or wraps; here it stops at 0.
unfoldable pub sub : GitSummary → GitSummary → GitSummary
sub a b = record {
  index = sub_tracked a.index b.index;
  worktree = sub_tracked a.worktree b.worktree;
  conflict = a.conflict - b.conflict;
  untracked = a.untracked - b.untracked;
  count = a.count - b.count;
}

-- The summary that a sum tree keeps of the statuses below a node.
abbrev pub total : List FileStatus → GitSummary
total [] = unchanged
total (status ∷ rest) = add (summary status) (total rest)

abbrev pub count_if : (FileStatus → Bool) → List FileStatus → ℕ
count_if p [] = 0
count_if p (status ∷ rest) = (if p status then 1 else 0) + count_if p rest

-- A test of the code of a tracked file, in the index or in the worktree.
abbrev pub in_index : (StatusCode → Bool) → FileStatus → Bool
in_index p (FileStatus.tracked codes) = p codes.index_status
in_index p _ = false

abbrev pub in_worktree : (StatusCode → Bool) → FileStatus → Bool
in_worktree p (FileStatus.tracked codes) = p codes.worktree_status
in_worktree p _ = false

abbrev pub is_change : StatusCode → Bool
is_change code = is_code code StatusCode.modified || is_code code StatusCode.type_changed
