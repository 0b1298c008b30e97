-- ===== src/Epoch/Assignments/Lookups.antt =====
-- epoch-extractor/main.go: what the maps of proposers answer.
use eth_research.Base.{
  ℕ, ◌≡◌, refl, List, [], ◌∷◌, Option, none, some, Bool, false, ◌||◌, ◌&&◌, ◌==◌, ltb,
  if◌then◌else◌, length, arith,
}
use eth_research.Base.Dict.{nat_eq, lookup, insert, lookup-insert}
use eth_research.Epoch.Assignments.{
  Assignment, Proposers, add_slots, add_assignment, add_assignments, process_next_epoch_assignments,
  no_proposers,
}

abbrev pub contains : ℕ → List ℕ → Bool
contains s [] = false
contains s (x ∷ xs) = s == x || contains s xs

-- The proposer of a slot by the assignments alone: the last one that lists the slot.
unfoldable pub last_proposer : ℕ → List Assignment → Option ℕ
last_proposer s [] = none
last_proposer s (a ∷ rest) = elim (last_proposer s rest) [
  | some i ↦ some i
  | none ↦ if contains s a.proposer_slots then some a.validator_index else none
]

-- The key of a validator: that of its last assignment with a slot to propose in.
unfoldable pub last_key : (List ℕ → List ℕ) → ℕ → List Assignment → Option (List ℕ)
last_key bytes2hex i [] = none
last_key bytes2hex i (a ∷ rest) = elim (last_key bytes2hex i rest) [
  | some k ↦ some k
  | none ↦
      if i == a.validator_index && ltb 0 (length a.proposer_slots)
      then some (bytes2hex a.public_key)
      else none
]

lookup-add_slots :
    (s index : ℕ) (slots : List ℕ) (d : List (ℕ × ℕ))
    → lookup s (add_slots index slots d) ≡ (if contains s slots then some index else lookup s d)
unfolding add_slots
lookup-add_slots s index [] d = refl
lookup-add_slots s index (x ∷ slots) d =
    ground (arith, lookup-add_slots s index slots (insert x index d), lookup-insert s x index d)

module _ (bytes2hex : List ℕ → List ℕ) where
  slot-add_assignments :
      (s : ℕ) (given : List Assignment) (p : Proposers)
      → lookup s (add_assignments bytes2hex given p).slot_to_index
        ≡ (elim (last_proposer s given) [ some i ↦ some i | none ↦ lookup s p.slot_to_index ])
  unfolding add_assignments add_assignment last_proposer
  slot-add_assignments s [] p = refl
  slot-add_assignments s (a ∷ rest) p = ground (
    arith,
    slot-add_assignments s rest (add_assignment bytes2hex a p),
    lookup-add_slots s a.validator_index a.proposer_slots p.slot_to_index,
  )

  key-add_assignments :
      (i : ℕ) (given : List Assignment) (p : Proposers)
      → lookup i (add_assignments bytes2hex given p).index_to_pub_key
        ≡ (elim (last_key bytes2hex i given) [
          | some k ↦ some k
          | none ↦ lookup i p.index_to_pub_key
        ])
  unfolding add_assignments add_assignment last_key
  key-add_assignments i [] p = refl
  key-add_assignments i (a ∷ rest) p = ground (
    arith,
    key-add_assignments i rest (add_assignment bytes2hex a p),
    lookup-insert i a.validator_index (bytes2hex a.public_key) p.index_to_pub_key,
  )

  -- The maps made from a list of assignments answer for a slot the validator of the last
  -- assignment that lists it, and for a validator the key of its last assignment with a slot to
  -- propose in; for any other slot or validator they have no entry.
  pub process_next_epoch_assignments_lem :
      (given : List Assignment) (s i : ℕ)
      → (lookup s (process_next_epoch_assignments bytes2hex given).slot_to_index
          ≡ last_proposer s given)
        × (lookup i (process_next_epoch_assignments bytes2hex given).index_to_pub_key
            ≡ last_key bytes2hex i given)
  unfolding process_next_epoch_assignments lookup
  process_next_epoch_assignments_lem given s i = (
    ground (arith, slot-add_assignments s given no_proposers),
    ground (arith, key-add_assignments i given no_proposers),
  )
