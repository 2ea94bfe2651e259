-- ===== src/Git/Counting.antt =====
-- What the summaries count.
use zaku.Prelude.{ℕ, ◌+◌, ◌-◌, ◌≡◌, refl, List, [], ◌∷◌, Bool, not, arith, if◌then◌else◌}
use zaku.Git.{StatusCode, FileStatus, is_code, is_conflicted, is_untracked, is_ignored}
use zaku.Git.Summary.{
  TrackedSummary, GitSummary, tracked_unchanged, to_summary, summary, add_tracked, add, sub, total,
  count_if, in_index, in_worktree, is_change,
}

-- A summary of three counts is that of a test on the codes.
pub record TrackedCounts (in_part : (StatusCode → Bool) → FileStatus → Bool)
    (statuses : List FileStatus) (part : TrackedSummary) : Type 0 where
  pub of_added : part.added ≡ count_if (in_part (λ c. is_code c StatusCode.added)) statuses
  pub of_modified : part.modified ≡ count_if (in_part is_change) statuses
  pub of_deleted : part.deleted ≡ count_if (in_part (λ c. is_code c StatusCode.deleted)) statuses

-- Every field of a summary is the number of the statuses that it is about.
pub record Counts (statuses : List FileStatus) (sum : GitSummary) : Type 0 where
  pub of_index : TrackedCounts in_index statuses sum.index
  pub of_worktree : TrackedCounts in_worktree statuses sum.worktree
  pub of_conflict : sum.conflict ≡ count_if is_conflicted statuses
  pub of_untracked : sum.untracked ≡ count_if is_untracked statuses
  pub of_count : sum.count ≡ count_if (λ s. not (is_ignored s)) statuses

nothing :
    (in_part : (StatusCode → Bool) → FileStatus → Bool) → TrackedCounts in_part [] tracked_unchanged
nothing in_part = record { of_added = refl; of_modified = refl; of_deleted = refl }

add_counts :
    (in_part : (StatusCode → Bool) → FileStatus → Bool) (status : FileStatus)
    (rest : List FileStatus) (a b : TrackedSummary)
    → TrackedCounts in_part (status ∷ []) a
    → TrackedCounts in_part rest b
    → TrackedCounts in_part (status ∷ rest) (add_tracked a b)
add_counts in_part status rest a b h k = record {
  of_added = omega (arith, h.of_added, k.of_added);
  of_modified = omega (arith, h.of_modified, k.of_modified);
  of_deleted = omega (arith, h.of_deleted, k.of_deleted);
}

one_code :
    (code : StatusCode)
    → ((to_summary code).added ≡ (if is_code code StatusCode.added then 1 else 0))
      × ((to_summary code).modified ≡ (if is_change code then 1 else 0))
      × ((to_summary code).deleted ≡ (if is_code code StatusCode.deleted then 1 else 0))
unfolding to_summary
one_code StatusCode.modified = (refl, refl, refl)
one_code StatusCode.type_changed = (refl, refl, refl)
one_code StatusCode.added = (refl, refl, refl)
one_code StatusCode.deleted = (refl, refl, refl)
one_code StatusCode.renamed = (refl, refl, refl)
one_code StatusCode.copied = (refl, refl, refl)
one_code StatusCode.unmodified = (refl, refl, refl)

-- What one status adds to every count.
one : (status : FileStatus) → Counts (status ∷ []) (summary status)
unfolding summary is_conflicted is_untracked is_ignored
one FileStatus.untracked = record {
  of_index = record { of_added = refl; of_modified = refl; of_deleted = refl };
  of_worktree = record { of_added = refl; of_modified = refl; of_deleted = refl };
  of_conflict = refl;
  of_untracked = refl;
  of_count = refl;
}
one FileStatus.ignored = record {
  of_index = record { of_added = refl; of_modified = refl; of_deleted = refl };
  of_worktree = record { of_added = refl; of_modified = refl; of_deleted = refl };
  of_conflict = refl;
  of_untracked = refl;
  of_count = refl;
}
one (FileStatus.unmerged heads) = record {
  of_index = record { of_added = refl; of_modified = refl; of_deleted = refl };
  of_worktree = record { of_added = refl; of_modified = refl; of_deleted = refl };
  of_conflict = refl;
  of_untracked = refl;
  of_count = refl;
}
one (FileStatus.tracked codes) =
    let i = one_code codes.index_status in
    let w = one_code codes.worktree_status in
    record {
      of_index = record {
        of_added = omega (arith, i.0);
        of_modified = omega (arith, i.1);
        of_deleted = omega (arith, i.2);
      };
      of_worktree = record {
        of_added = omega (arith, w.0);
        of_modified = omega (arith, w.1);
        of_deleted = omega (arith, w.2);
      };
      of_conflict = refl;
      of_untracked = refl;
      of_count = refl;
    }

add_sub : (a b : ℕ) → a + b - b ≡ a
add_sub a b = omega arith

-- Taking away the part that was added last gives back what was there before.
pub sub-add : (a b : GitSummary) → sub (add a b) b ≡ a
unfolding sub add
sub-add a b = simp add_sub

-- Every field of the total is the number of the statuses that it is about.
pub total-Counts : (statuses : List FileStatus) → Counts statuses (total statuses)
unfolding add is_ignored is_conflicted is_untracked
total-Counts [] = record {
  of_index = nothing in_index;
  of_worktree = nothing in_worktree;
  of_conflict = refl;
  of_untracked = refl;
  of_count = refl;
}
total-Counts (s ∷ rest) =
    let first = one s in
    let others = total-Counts rest in
    record {
      of_index = add_counts in_index s rest _ _ first.of_index others.of_index;
      of_worktree = add_counts in_worktree s rest _ _ first.of_worktree others.of_worktree;
      of_conflict = omega (arith, first.of_conflict, others.of_conflict);
      of_untracked = omega (arith, first.of_untracked, others.of_untracked);
      of_count = omega (arith, first.of_count, others.of_count);
    }
