-- ===== src/Git/Decode.antt =====
-- The status that two bytes are read as.
use zaku.Prelude.{
  ℕ, ◌≡◌, refl, sym, ap, ◌∙◌, ◌⊎◌, inl, inr, true, ◌&&◌, ◌||◌, arith, ok, ◌==◌, Bool-cases, ◌>>=◌,
  if◌then◌else◌, ok_of_bind, ==_iff,
}
use zaku.Git.{
  UnmergedStatusCode, head_updated, StatusCode, FileStatus, untracked, ignored, unmerged, tracked,
  unmerged_code_from_byte, code_from_byte, from_bytes,
}
use zaku.Git.Bytes.{head_byte, code_byte, first_byte, second_byte, both_added}

code_byte-of_code_from_byte :
    (byte : ℕ) (code : StatusCode) → code_from_byte byte ≡ ok code → code_byte code ≡ byte
unfolding code_from_byte
code_byte-of_code_from_byte byte code h = ground arith

head_byte-of_unmerged_code_from_byte :
    (byte : ℕ) (code : UnmergedStatusCode)
    → unmerged_code_from_byte byte ≡ ok code
    → head_byte code ≡ byte
unfolding unmerged_code_from_byte
head_byte-of_unmerged_code_from_byte byte code h = ground arith

-- The bytes of the status, or the ones that the parser misreads.
abbrev Reads : ℕ → ℕ → FileStatus → Type 0
Reads first second status =
    ((first_byte status ≡ first) × (second_byte status ≡ second))
    ⊎ ((first ≡ b'D') × (second ≡ b'D') × (status ≡ both_added))

Reads-both :
    (first second a b : ℕ) (status result : FileStatus)
    → (first == a) && (second == b) ≡ true
    → result ≡ status
    → first_byte result ≡ a
    → second_byte result ≡ b
    → Reads first second status
Reads-both first second a b status result e h x y = ground arith

Reads-added :
    (first second : ℕ) (status : FileStatus)
    → (first == b'A') && (second == b'A') || (first == b'D') && (second == b'D') ≡ true
    → both_added ≡ status
    → Reads first second status
Reads-added first second status e h = ground arith

Reads-updated_second :
    (first second : ℕ) (status : FileStatus)
    → (second == b'U') ≡ true
    → (unmerged_code_from_byte first >>= λ head.
        ok (unmerged record { first_head = head; second_head = head_updated }))
      ≡ ok status
    → Reads first second status
Reads-updated_second first second status e h =
    let (head, d, h1) = ok_of_bind (unmerged_code_from_byte first) _ h in
    let same : unmerged record { first_head = head; second_head = head_updated } ≡ status = cc in
    inl (
      ap first_byte (sym same) ∙ head_byte-of_unmerged_code_from_byte first head d,
      ap second_byte (sym same) ∙ sym ((==_iff second b'U').0 e),
    )

Reads-updated_first :
    (first second : ℕ) (status : FileStatus)
    → (first == b'U') ≡ true
    → (unmerged_code_from_byte second >>= λ head.
        ok (unmerged record { first_head = head_updated; second_head = head }))
      ≡ ok status
    → Reads first second status
Reads-updated_first first second status e h =
    let (head, d, h1) = ok_of_bind (unmerged_code_from_byte second) _ h in
    let same : unmerged record { first_head = head_updated; second_head = head } ≡ status = cc in
    inl (
      ap first_byte (sym same) ∙ sym ((==_iff first b'U').0 e),
      ap second_byte (sym same) ∙ head_byte-of_unmerged_code_from_byte second head d,
    )

Reads-tracked :
    (first second : ℕ) (status : FileStatus)
    → (code_from_byte first >>= λ i. code_from_byte second >>= λ w.
        ok (tracked record { index_status = i; worktree_status = w }))
      ≡ ok status
    → Reads first second status
Reads-tracked first second status h =
    let (i, e, h1) = ok_of_bind (code_from_byte first) _ h in
    let (w, d, h2) = ok_of_bind (code_from_byte second) _ h1 in
    inl (
      cc (code_byte-of_code_from_byte first i e, h2),
      cc (code_byte-of_code_from_byte second w d, h2),
    )

Reads-from_bytes :
    (first second : ℕ) (status : FileStatus)
    → from_bytes first second ≡ ok status
    → Reads first second status
unfolding from_bytes
Reads-from_bytes first second status h = elim (Bool-cases ((first == b'?') && (second == b'?'))) [
  | inl e ↦ Reads-both first second b'?' b'?' status untracked e (cc (rw e at h)) refl refl
  | inr e1 ↦ elim (Bool-cases ((first == b'!') && (second == b'!'))) [
    | inl e ↦ Reads-both first second b'!' b'!' status ignored e (cc (rw (e1, e) at h)) refl refl
    | inr e2 ↦
        elim (Bool-cases
          ((first == b'A') && (second == b'A') || (first == b'D') && (second == b'D'))) [
            | inl e ↦ Reads-added first second status e (cc (rw (e1, e2, e) at h))
            | inr e3 ↦ elim (Bool-cases (second == b'U')) [
              | inl e ↦ Reads-updated_second first second status e (rw (e1, e2, e3, e) at h)
              | inr e4 ↦ elim (Bool-cases (first == b'U')) [
                | inl e ↦ Reads-updated_first first second status e (rw (e1, e2, e3, e4, e) at h)
                | inr e5 ↦ Reads-tracked first second status (rw (e1, e2, e3, e4, e5) at h)
              ]
            ]
          ]
  ]
]

-- `DD` stands for both added; any other two bytes are those of the status.
abbrev pub ReadAs : ℕ → ℕ → FileStatus → Type 0
ReadAs first second status =
    if (first == b'D') && (second == b'D')
    then status ≡ both_added
    else (first_byte status ≡ first) × (second_byte status ≡ second)

deleted_twice : from_bytes b'D' b'D' ≡ ok both_added
unfolding from_bytes
deleted_twice = refl

-- Two bytes that are read as a status are its bytes, but for `DD`, which stands for a file that both
-- sides deleted and is read as the status of a file that both sides added.
pub bytes-from_bytes :
    (first second : ℕ) (status : FileStatus)
    → from_bytes first second ≡ ok status
    → ReadAs first second status
bytes-from_bytes first second status h = elim (Bool-cases ((first == b'D') && (second == b'D'))) [
  | inl both ↦
      let d : first ≡ b'D' = ground arith in
      let e : second ≡ b'D' = ground arith in rw both (cc (rw (d, e) at h, deleted_twice))
  | inr other ↦ rw other (elim (Reads-from_bytes first second status h) [
    | inl bytes ↦ bytes
    | inr (d, e, _) ↦ absurd (ground arith)
  ])
]
