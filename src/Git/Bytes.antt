-- ===== src/Git/Bytes.antt =====
-- The two status bytes of a report and the statuses that they stand for.
use zaku.Prelude.{ℕ, ◌≡◌, refl, Bool, true, false, not, ◌&&◌, ◌||◌, ok, ◌==◌}
use zaku.Git.{
  UnmergedStatusCode, head_added, head_deleted, head_updated, StatusCode, modified, type_changed,
  added, deleted, renamed, copied, unmodified, FileStatus, untracked, ignored, unmerged, tracked,
  unmerged_code_from_byte, code_from_byte, from_bytes, is_code,
}

-- The letters of `git status`.
abbrev pub head_byte : UnmergedStatusCode → ℕ
head_byte head_added = b'A'
head_byte head_deleted = b'D'
head_byte head_updated = b'U'

abbrev pub code_byte : StatusCode → ℕ
code_byte modified = b'M'
code_byte type_changed = b'T'
code_byte added = b'A'
code_byte deleted = b'D'
code_byte renamed = b'R'
code_byte copied = b'C'
code_byte unmodified = b' '

abbrev pub first_byte : FileStatus → ℕ
first_byte untracked = b'?'
first_byte ignored = b'!'
first_byte (unmerged heads) = head_byte heads.first_head
first_byte (tracked codes) = code_byte codes.index_status

abbrev pub second_byte : FileStatus → ℕ
second_byte untracked = b'?'
second_byte ignored = b'!'
second_byte (unmerged heads) = head_byte heads.second_head
second_byte (tracked codes) = code_byte codes.worktree_status

abbrev is_updated : UnmergedStatusCode → Bool
is_updated head_updated = true
is_updated _ = false

abbrev is_added : UnmergedStatusCode → Bool
is_added head_added = true
is_added _ = false

abbrev is_head_deleted : UnmergedStatusCode → Bool
is_head_deleted head_deleted = true
is_head_deleted _ = false

abbrev pub both_added : FileStatus
both_added = unmerged record { first_head = head_added; second_head = head_added }

abbrev pub both_deleted : FileStatus
both_deleted = unmerged record { first_head = head_deleted; second_head = head_deleted }

-- The statuses that a report can hold: two sides of a conflict are both added or both deleted, or
-- one of them is updated, and no tracked file is added, or deleted, on both sides.
abbrev pub is_reported : FileStatus → Bool
is_reported untracked = true
is_reported ignored = true
is_reported (unmerged heads) =
    is_updated heads.first_head
    || is_updated heads.second_head
    || is_added heads.first_head && is_added heads.second_head
    || is_head_deleted heads.first_head && is_head_deleted heads.second_head
is_reported (tracked codes) = not (
    is_code codes.index_status added && is_code codes.worktree_status added
    || is_code codes.index_status deleted && is_code codes.worktree_status deleted)

-- What `from_bytes` makes of the bytes of a status: both deleted is taken for both added.
abbrev pub reread_heads : UnmergedStatusCode → UnmergedStatusCode → FileStatus
reread_heads head_deleted head_deleted = both_added
reread_heads first second = unmerged record { first_head = first; second_head = second }

abbrev pub reread : FileStatus → FileStatus
reread untracked = untracked
reread ignored = ignored
reread (unmerged heads) = reread_heads heads.first_head heads.second_head
reread (tracked codes) = tracked codes

code_from_byte-code_byte : (code : StatusCode) → code_from_byte (code_byte code) ≡ ok code
unfolding code_from_byte
code_from_byte-code_byte modified = refl
code_from_byte-code_byte type_changed = refl
code_from_byte-code_byte added = refl
code_from_byte-code_byte deleted = refl
code_from_byte-code_byte renamed = refl
code_from_byte-code_byte copied = refl
code_from_byte-code_byte unmodified = refl

-- How the tests of `from_bytes` come out on the letter of a tracked status.
record Tested (code : StatusCode) : Type 0 where
  pub at_question : (code_byte code == b'?') ≡ false
  pub at_bang : (code_byte code == b'!') ≡ false
  pub at_u : (code_byte code == b'U') ≡ false
  pub at_a : (code_byte code == b'A') ≡ is_code code added
  pub at_d : (code_byte code == b'D') ≡ is_code code deleted

tests : (code : StatusCode) → Tested code
tests modified = record {
  at_question = refl;
  at_bang = refl;
  at_u = refl;
  at_a = refl;
  at_d = refl;
}
tests type_changed = record {
  at_question = refl;
  at_bang = refl;
  at_u = refl;
  at_a = refl;
  at_d = refl;
}
tests added = record { at_question = refl; at_bang = refl; at_u = refl; at_a = refl; at_d = refl }
tests deleted = record { at_question = refl; at_bang = refl; at_u = refl; at_a = refl; at_d = refl }
tests renamed = record { at_question = refl; at_bang = refl; at_u = refl; at_a = refl; at_d = refl }
tests copied = record { at_question = refl; at_bang = refl; at_u = refl; at_a = refl; at_d = refl }
tests unmodified = record {
  at_question = refl;
  at_bang = refl;
  at_u = refl;
  at_a = refl;
  at_d = refl;
}

unmerged_bytes :
    (first second : UnmergedStatusCode)
    → is_reported (unmerged record { first_head = first; second_head = second }) ≡ true
    → from_bytes (head_byte first) (head_byte second) ≡ ok (reread_heads first second)
unfolding from_bytes unmerged_code_from_byte
unmerged_bytes head_added head_added h = refl
unmerged_bytes head_added head_deleted h = cc
unmerged_bytes head_added head_updated h = refl
unmerged_bytes head_deleted head_added h = cc
unmerged_bytes head_deleted head_deleted h = refl
unmerged_bytes head_deleted head_updated h = refl
unmerged_bytes head_updated head_added h = refl
unmerged_bytes head_updated head_deleted h = refl
unmerged_bytes head_updated head_updated h = refl

tracked_bytes :
    (first second : StatusCode)
    → is_reported (tracked record { index_status = first; worktree_status = second }) ≡ true
    → from_bytes (code_byte first) (code_byte second)
      ≡ ok (tracked record { index_status = first; worktree_status = second })
unfolding from_bytes
tracked_bytes first second h =
    let i = tests first in
    let w = tests second in
    rw (
      i.at_question,
      i.at_bang,
      i.at_u,
      i.at_a,
      i.at_d,
      w.at_u,
      w.at_a,
      w.at_d,
      not_both _ h,
      code_from_byte-code_byte first,
      code_from_byte-code_byte second,
    )
  where
    not_both : (b : Bool) → not b ≡ true → b ≡ false
    not_both true e = cc
    not_both false e = refl

-- The bytes of a status that a report can hold are read as that status, but for both deleted.
pub from_bytes-bytes :
    (status : FileStatus)
    → is_reported status ≡ true
    → from_bytes (first_byte status) (second_byte status) ≡ ok (reread status)
unfolding from_bytes
from_bytes-bytes untracked h = refl
from_bytes-bytes ignored h = refl
from_bytes-bytes (unmerged heads) h = unmerged_bytes heads.first_head heads.second_head h
from_bytes-bytes (tracked codes) h = tracked_bytes codes.index_status codes.worktree_status h

head_byte-nul : (code : UnmergedStatusCode) → (head_byte code == 0) ≡ false
head_byte-nul head_added = refl
head_byte-nul head_deleted = refl
head_byte-nul head_updated = refl

code_byte-nul : (code : StatusCode) → (code_byte code == 0) ≡ false
code_byte-nul modified = refl
code_byte-nul type_changed = refl
code_byte-nul added = refl
code_byte-nul deleted = refl
code_byte-nul renamed = refl
code_byte-nul copied = refl
code_byte-nul unmodified = refl

pub first_byte-nul : (status : FileStatus) → (first_byte status == 0) ≡ false
first_byte-nul untracked = refl
first_byte-nul ignored = refl
first_byte-nul (unmerged heads) = head_byte-nul heads.first_head
first_byte-nul (tracked codes) = code_byte-nul codes.index_status

pub second_byte-nul : (status : FileStatus) → (second_byte status == 0) ≡ false
second_byte-nul untracked = refl
second_byte-nul ignored = refl
second_byte-nul (unmerged heads) = head_byte-nul heads.second_head
second_byte-nul (tracked codes) = code_byte-nul codes.worktree_status
