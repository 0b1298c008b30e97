-- ===== src/Epoch/Schedule.antt =====
-- epoch-extractor/main.go: the schedule that is logged for an epoch, and the check of the current
-- assignments against the stored maps. What is logged is the result.
pub mod Order
pub mod Check
use eth_research.Base.{
  ℕ, zero, suc, ◌+◌, ◌%◌, ◌^◌, List, [], ◌∷◌, ◌++◌, Option, none, some, Bool, true, false, ◌&&◌,
  not, ltb, leb, ◌==◌, if◌then◌else◌, length, take, Outcome, done, panic, ◌>>=◌,
}
use eth_research.Base.Dict.{Dict, nat_eq, keys, lookup, lookup_or}
use eth_research.Epoch.Assignments.{Assignment, Proposers}

-- `int(uint64(k))` keeps the bits, so the order of `sort.Ints` has the keys from 2 ^ 63 on first.
abbrev pub int_rank : ℕ → ℕ
int_rank k = (k + 2 ^ 63) % 2 ^ 64

-- `sort.Ints`
unfoldable pub insert_sorted : ℕ → List ℕ → List ℕ
insert_sorted k [] = k ∷ []
insert_sorted k (x ∷ xs) =
    if leb (int_rank k) (int_rank x) then k ∷ (x ∷ xs) else x ∷ insert_sorted k xs

unfoldable pub sort_ints : List ℕ → List ℕ
sort_ints [] = []
sort_ints (x ∷ xs) = insert_sorted x (sort_ints xs)

-- One line " Proposer schedule".
pub record Entry : Type 0 where
  pub slot : ℕ
  pub next_epoch : ℕ
  pub proposer_pub_key : List ℕ

abbrev pub hex_prefix : List ℕ → List ℕ
hex_prefix key = b'0' ∷ (b'x' ∷ key)

unfoldable pub schedule_entries : ℕ → Proposers → List ℕ → List Entry
schedule_entries epoch p [] = []
schedule_entries epoch p (slot ∷ rest) =
    record {
      slot = slot;
      next_epoch = epoch;
      proposer_pub_key =
          hex_prefix (lookup_or [] (lookup_or 0 slot p.slot_to_index) p.index_to_pub_key);
    }
    ∷ schedule_entries epoch p rest

unfoldable pub log_proposer_schedule : ℕ → Proposers → List Entry
log_proposer_schedule epoch p = schedule_entries epoch p (sort_ints (keys p.slot_to_index))

-- The line "Proposer public not matched!".
pub record Mismatch : Type 0 where
  pub slot : ℕ
  pub cur_epoch : ℕ
  pub give_proposer_pub_key : List ℕ
  pub stored_proposer_pub_key : List ℕ

-- `s[:12]` of a string
unfoldable pub first_twelve : List ℕ → Outcome (List ℕ)
first_twelve s = if ltb (length s) 12 then panic else done (take 12 s)

-- The key that the check takes for the stored one: of the next epoch's maps.
unfoldable pub stored_key : Proposers → ℕ → List ℕ
stored_key next slot = lookup_or [] (lookup_or 0 slot next.slot_to_index) next.index_to_pub_key

module _ (bytes2hex : List ℕ → List ℕ) (cur_epoch : ℕ) (cur next : Proposers) where
  -- The body of the inner loop when its test holds.
  unfoldable pub report : Assignment → ℕ → Outcome (Option Mismatch)
  report a slot = do
    given ← first_twelve (bytes2hex a.public_key)
    stored ← first_twelve (stored_key next slot)
    done (
        some (record {
          slot = slot;
          cur_epoch = cur_epoch;
          give_proposer_pub_key = hex_prefix given;
          stored_proposer_pub_key = hex_prefix stored;
        }))

  -- The test of the inner loop.
  unfoldable pub mismatches : Assignment → ℕ → Bool
  mismatches a slot =
      ltb 0 (length (stored_key next slot))
      && not (lookup_or 0 slot cur.slot_to_index == a.validator_index)

  unfoldable pub check_slots : Assignment → List ℕ → Outcome (Option Mismatch)
  check_slots a [] = done none
  check_slots a (slot ∷ rest) =
      let later = check_slots a rest in if mismatches a slot then report a slot else later

  -- The first report ends the whole check.
  unfoldable pub check_compatibility : List Assignment → Outcome (Option Mismatch)
  check_compatibility [] = done none
  check_compatibility (a ∷ rest) =
      let later = check_compatibility rest in
      do
        found ← check_slots a a.proposer_slots
        (elim found [ some m ↦ done (some m) | none ↦ later ])
