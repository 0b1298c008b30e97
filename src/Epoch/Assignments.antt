-- ===== src/Epoch/Assignments.antt =====
-- epoch-extractor/main.go, `processNextEpochAssignments`: from validator assignments to the two
-- maps of proposers. Slots, epochs and validator indices are `uint64` numbers.
pub mod Lookups
use eth_research.Base.{ℕ, List, [], ◌∷◌, if◌then◌else◌, ltb, length}
use eth_research.Base.Dict.{Dict, insert, nat_eq}

-- `ethpb.ValidatorAssignments_CommitteeAssignment`: the fields that this program reads.
pub record Assignment : Type 0 where
  pub validator_index : ℕ
  pub public_key : List ℕ
  pub proposer_slots : List ℕ

-- What the two maps of an epoch hold. A text is the list of its characters' codes.
pub record Proposers : Type 0 where
  pub index_to_pub_key : Dict ℕ (List ℕ)
  pub slot_to_index : Dict ℕ ℕ

abbrev pub no_proposers : Proposers
no_proposers = record { index_to_pub_key = []; slot_to_index = [] }

unfoldable pub add_slots : ℕ → List ℕ → Dict ℕ ℕ → Dict ℕ ℕ
add_slots index [] slots = slots
add_slots index (slot ∷ rest) slots = add_slots index rest (insert slot index slots)

-- `common.Bytes2Hex` is go-ethereum's.
module _ (bytes2hex : List ℕ → List ℕ) where
  -- One round of the loop over the assignments.
  unfoldable pub add_assignment : Assignment → Proposers → Proposers
  add_assignment a p = record {
    slot_to_index = add_slots a.validator_index a.proposer_slots p.slot_to_index;
    index_to_pub_key =
        if ltb 0 (length a.proposer_slots)
        then insert a.validator_index (bytes2hex a.public_key) p.index_to_pub_key
        else p.index_to_pub_key;
  }

  unfoldable pub add_assignments : List Assignment → Proposers → Proposers
  add_assignments [] p = p
  add_assignments (a ∷ rest) p = add_assignments rest (add_assignment a p)

  unfoldable pub process_next_epoch_assignments : List Assignment → Proposers
  process_next_epoch_assignments assignments = add_assignments assignments no_proposers
