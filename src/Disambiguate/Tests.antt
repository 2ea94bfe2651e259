-- ===== src/Disambiguate/Tests.antt =====
-- The runs of the source's tests, and the theorem for two files of one name.
use zaku.Prelude.{◌≡◌, refl, ℕ, zero, suc, ◌==◌, some, [], ◌∷◌, ==_iff, if◌then◌else◌}
use zaku.Disambiguate.{visit, collides, bump, rounds, compute_disambiguation_details}
use zaku.Disambiguate.Rounds.{HasDetails, compute_disambiguation_details-HasDetails}

-- A description is a number. The files 10 and 20 are called 1, the file 30 is called 3, and more
-- detail is the whole number.
abbrev name : ℕ → ℕ → ℕ
name file zero = if file == 30 then 3 else 1
name file (suc detail) = file

-- The files 10 and 11 are in directories of one name, 2: they need two details.
abbrev deep_name : ℕ → ℕ → ℕ
deep_name file zero = 1
deep_name file (suc zero) = if file == 30 then 3 else 2
deep_name file (suc (suc detail)) = file

no_conflicts : compute_disambiguation_details name ◌==◌ 2 (10 ∷ 30 ∷ []) ≡ some (0 ∷ 0 ∷ [])
unfolding compute_disambiguation_details rounds visit collides bump
no_conflicts = refl

two_way_conflict :
    compute_disambiguation_details name ◌==◌ 5 (10 ∷ 20 ∷ 30 ∷ []) ≡ some (1 ∷ 1 ∷ 0 ∷ [])
unfolding compute_disambiguation_details rounds visit collides bump
two_way_conflict = refl

deeper_conflict :
    compute_disambiguation_details deep_name ◌==◌ 10 (10 ∷ 11 ∷ 30 ∷ []) ≡ some (2 ∷ 2 ∷ 1 ∷ [])
unfolding compute_disambiguation_details rounds visit collides bump
deeper_conflict = refl

-- Two items that no detail tells apart: the descriptions stop changing, and so do the rounds.
same_item : compute_disambiguation_details name ◌==◌ 5 (10 ∷ 10 ∷ []) ≡ some (2 ∷ 2 ∷ [])
unfolding compute_disambiguation_details rounds visit collides bump
same_item = refl

compute_disambiguation_details-HasDetails_example :
    HasDetails 1 2 (compute_disambiguation_details name ◌==◌ 5 (10 ∷ 20 ∷ []))
compute_disambiguation_details-HasDetails_example =
    compute_disambiguation_details-HasDetails name ◌==◌ ==_iff 1 (λ item. refl) (10 ∷ 20 ∷ [])
