-- ===== src/Disambiguate.antt =====
-- crates/util/src/disambiguate.rs: how much detail the names of items need to be told apart. The
-- hash map from descriptions to indices is a search for the items of one description.
pub mod Details
pub mod Rounds
mod Tests
use zaku.Prelude.{
  ℕ, zero, suc, Bool, true, false, ◌&&◌, Option, none, some, List, [], ◌∷◌, map, filter, any,
  length, ltb, if◌then◌else◌,
}

-- An item with its detail, its current description, and whether this round entered its index
-- under the description.
pub record Entry (T D : Type 0) : Type 0 where
  pub item : T
  pub detail : ℕ
  pub current_description : D
  pub entered : Bool

module _ {T D : Type 0} (eq : D → D → Bool) where
  -- The indices under one description.
  abbrev pub entered_as : D → List (Entry T D) → List (Entry T D)
  entered_as description =
      filter (λ entry. entry.entered && eq description entry.current_description)

  unfoldable pub collides : List (Entry T D) → Entry T D → Bool
  collides entries entry =
      entry.entered && ltb 1 (length (entered_as entry.current_description entries))

  -- The second loop of a round: the items of a description with several indices get more detail.
  unfoldable pub bump : List (Entry T D) → Entry T D → Entry T D
  bump entries entry =
      if collides entries entry then record entry { detail = suc entry.detail } else entry

abbrev pub initial : {T D : Type 0} → (T → ℕ → D) → T → Entry T D
initial get_description item = record {
  item = item;
  detail = 0;
  current_description = get_description item 0;
  entered = false;
}

module _ {T D : Type 0} (get_description : T → ℕ → D) (eq : D → D → Bool) where
  -- The first loop of a round: an item whose description stayed as it was is passed over.
  unfoldable pub visit : Entry T D → Entry T D
  visit entry =
      if ltb 0 entry.detail
      then (let new_description = get_description entry.item entry.detail in
          if eq new_description entry.current_description
          then record entry { entered = false }
          else record entry { current_description = new_description; entered = true })
      else record entry { entered = true }

  -- The rounds, until one sees no collision.
  unfoldable pub rounds : ℕ → List (Entry T D) → Option (List ℕ)
  unfolding visit bump collides
  rounds zero entries = none
  rounds (suc fuel) entries =
      let visited = map visit entries in
      elim (any (collides eq visited) visited) [
        | true ↦ rounds fuel (map (bump eq visited) visited)
        | false ↦ some (map (λ entry. entry.detail) visited)
      ]

  unfoldable pub compute_disambiguation_details : ℕ → List T → Option (List ℕ)
  unfolding rounds
  compute_disambiguation_details fuel items = rounds fuel (map (initial get_description) items)
