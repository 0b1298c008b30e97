-- ===== src/Epoch/Schedule/Check.antt =====
-- epoch-extractor/main.go: the reports of `checkCompatibility`.
use eth_research.Base.{
  ℕ, ◌*◌, ◌≤◌, ◌<◌, ◌≡◌, refl, inl, inr, List, [], ◌∷◌, Option, none, some, length, take, All, done,
  arith, Bool-cases, Option-cases, true,
}
use eth_research.Base.Dict.{nat_eq, lookup, lookup_or}
use eth_research.Epoch.Assignments.{Assignment, Proposers, process_next_epoch_assignments}
use eth_research.Epoch.Assignments.Lookups.{last_key, process_next_epoch_assignments_lem}
use eth_research.Epoch.Schedule.{
  Mismatch, first_twelve, stored_key, report, mismatches, check_slots, check_compatibility,
}

first_twelve-done : (s : List ℕ) → 12 ≤ length s → first_twelve s ≡ done (take 12 s)
unfolding first_twelve
first_twelve-done s h = ground arith

-- The maps know nothing of the slots of these assignments.
abbrev pub NoneStored : Proposers → List Assignment → Type 0
NoneStored p = All (λ a. All (λ slot. lookup slot p.slot_to_index ≡ none) a.proposer_slots)

module _ (bytes2hex : List ℕ → List ℕ) (cur_epoch : ℕ) (cur next : Proposers) where
  stored_none :
      (slot : ℕ)
      → lookup slot next.slot_to_index ≡ none
      → lookup 0 next.index_to_pub_key ≡ none
      → stored_key next slot ≡ []
  unfolding stored_key
  stored_none slot unknown no_zero = ground (arith, unknown, no_zero)

  silent_slots :
      (a : Assignment) (slots : List ℕ)
      → All (λ slot. lookup slot next.slot_to_index ≡ none) slots
      → lookup 0 next.index_to_pub_key ≡ none
      → check_slots bytes2hex cur_epoch cur next a slots ≡ done none
  unfolding check_slots mismatches
  silent_slots a [] unknown no_zero = refl
  silent_slots a (slot ∷ slots) unknown no_zero =
      rw (stored_none slot unknown.0 no_zero) (silent_slots a slots unknown.1 no_zero)

  -- The check compares nothing, and reports nothing, whatever the two sides hold, when the slots
  -- of the current assignments are not slots of the next epoch's map and validator 0 does not
  -- propose in the next epoch.
  pub check_compatibility_silent :
      (given : List Assignment)
      → NoneStored next given
      → lookup 0 next.index_to_pub_key ≡ none
      → check_compatibility bytes2hex cur_epoch cur next given ≡ done none
  unfolding check_compatibility
  check_compatibility_silent [] unknown no_zero = refl
  check_compatibility_silent (a ∷ given) unknown no_zero =
      rw (silent_slots a a.proposer_slots unknown.0 no_zero)
        (check_compatibility_silent given unknown.1 no_zero)

  -- Keys of 6 bytes or more leave the 12 hex digits that a report prints.
  module _ (hex_digits : (b : List ℕ) → length (bytes2hex b) ≡ 2 * length b)
      (stored : (slot : ℕ)
        → 0 < length (stored_key next slot)
        → 12 ≤ length (stored_key next slot)) where
    report_total :
        (a : Assignment) (slot : ℕ)
        → 6 ≤ length a.public_key
        → mismatches bytes2hex cur_epoch cur next a slot ≡ true
        → (m : Option Mismatch) × (report bytes2hex cur_epoch cur next a slot ≡ done m)
    unfolding report mismatches
    report_total a slot long test =
        let key : 12 ≤ length (bytes2hex a.public_key) = omega (arith, hex_digits a.public_key) in
        let kept : 12 ≤ length (stored_key next slot) = stored slot (ground arith) in
        rw
          (
            first_twelve-done (bytes2hex a.public_key) key,
            first_twelve-done (stored_key next slot) kept,
          )
          (_, refl)

    check_slots_total :
        (a : Assignment) (slots : List ℕ)
        → 6 ≤ length a.public_key
        → (m : Option Mismatch) × (check_slots bytes2hex cur_epoch cur next a slots ≡ done m)
    unfolding check_slots
    check_slots_total a [] long = (none, refl)
    check_slots_total a (slot ∷ slots) long =
        elim (Bool-cases (mismatches bytes2hex cur_epoch cur next a slot)) [
          | inl differ ↦ rw differ (report_total a slot long differ)
          | inr same ↦ rw same (check_slots_total a slots long)
        ]

    pub check_compatibility_total :
        (given : List Assignment)
        → All (λ a. 6 ≤ length a.public_key) given
        → (m : Option Mismatch) × (check_compatibility bytes2hex cur_epoch cur next given ≡ done m)
    unfolding check_compatibility
    check_compatibility_total [] long = (none, refl)
    check_compatibility_total (a ∷ given) long =
        let (m, e) = check_slots_total a a.proposer_slots long.0 in
        go m e (check_compatibility_total given long.1)
      where
        go :
            (m : Option Mismatch)
            → check_slots bytes2hex cur_epoch cur next a a.proposer_slots ≡ done m
            → (r : Option Mismatch) × (check_compatibility bytes2hex cur_epoch cur next given
                ≡ done r)
            → (r : Option Mismatch) × (check_compatibility bytes2hex cur_epoch cur next (a ∷ given)
                ≡ done r)
        go none e rest = rw e rest
        go (some m) e rest = rw e (some m, refl)

-- The maps made from such assignments hold such keys.
module _ (bytes2hex : List ℕ → List ℕ)
    (hex_digits : (b : List ℕ) → length (bytes2hex b) ≡ 2 * length b) where
  last_key_long :
      (i : ℕ) (given : List Assignment) (k : List ℕ)
      → All (λ a. 6 ≤ length a.public_key) given
      → last_key bytes2hex i given ≡ some k
      → 12 ≤ length k
  unfolding last_key
  last_key_long i [] k long e = cc
  last_key_long i (a ∷ given) k long e = elim (Option-cases (last_key bytes2hex i given)) [
    | inl here ↦ ground (arith, hex_digits a.public_key)
    | inr (k', later) ↦ ground (arith, last_key_long i given k long.1)
  ]

  pub stored_key_long :
      (given : List Assignment) (slot : ℕ)
      → All (λ a. 6 ≤ length a.public_key) given
      → 0 < length (stored_key (process_next_epoch_assignments bytes2hex given) slot)
      → 12 ≤ length (stored_key (process_next_epoch_assignments bytes2hex given) slot)
  unfolding stored_key
  stored_key_long given slot long some_key =
      let p = process_next_epoch_assignments bytes2hex given in
      let i = lookup_or 0 slot p.slot_to_index in
      elim (Option-cases (lookup i p.index_to_pub_key)) [
        | inl absent ↦ ground arith
        | inr (k, present) ↦ ground (
          arith,
          last_key_long i given k long,
          process_next_epoch_assignments_lem bytes2hex given slot i,
        )
      ]
