-- ===== src/Epoch/Examples.antt =====
-- epoch-extractor/main.go: runs, and the theorems at concrete inputs.
use eth_research.Base.{
  ℕ, ◌+◌, ◌-◌, false, ◌*◌, ◌/◌, ◌%◌, ◌≤◌, ◌≡◌, refl, List, [], ◌∷◌, none, some, ltb, if◌then◌else◌,
  length, map, All, Outcome, done, panic, arith, ◌↔◌, true, suc, ◌==◌,
}
use eth_research.Base.Dict.{nat_eq, keys, lookup, insert}
use eth_research.Epoch.Assignments.{
  Assignment, Proposers, no_proposers, add_slots, add_assignment, add_assignments,
  process_next_epoch_assignments,
}
use eth_research.Epoch.Assignments.Lookups.{
  last_proposer, last_key, process_next_epoch_assignments_lem,
}
use eth_research.Epoch.Schedule.{Entry, log_proposer_schedule, check_compatibility}
use eth_research.Epoch.Schedule.Order.{IsSorted, log_proposer_schedule_slots}
use eth_research.Epoch.Schedule.Check.{check_compatibility_silent}
use eth_research.Epoch.Runner.{Client, Report, changed, tick}
use eth_research.Epoch.Runner.Tracking
use eth_research.Epoch.Runner.Runs.{tick_after_skip}
use eth_research.Base.Text.{str_eq}
use eth_research.Epoch.Start.{Grpc, no_slots_per_epoch, ran, notices, main}
use eth_research.Epoch.Start.Whole.{main_lem}
use eth_research.Epoch.Start.Panics.{main_panics_iff}
use eth_research.Epoch.Runner.Panics.{AnswersLong, any_head}
use mathlib.Core.Path.{subst}
use mathlib.Core.List.{Perm}

-- Two hex digits a byte.
abbrev digit : ℕ → ℕ
digit d = if ltb d 10 then b'0' + d else b'a' + (d - 10)

abbrev hex : List ℕ → List ℕ
hex [] = []
hex (b ∷ bs) = digit (b / 16) ∷ digit (b % 16) ∷ hex bs

length-hex : (b : List ℕ) → length (hex b) ≡ 2 * length b
length-hex [] = refl
length-hex (b ∷ bs) = omega (arith, length-hex bs)

abbrev per_slot : ℕ → ℕ → Outcome ℕ
per_slot slot per = if per == 0 then panic else done (slot / per)

abbrev halves : ℕ → ℕ
halves slot = slot / 2

per_slot-two : (slot : ℕ) → per_slot slot 2 ≡ done (halves slot)
per_slot-two slot = refl

per_slot-suc : (slot n : ℕ) → (e : ℕ) × (per_slot slot (suc n) ≡ done e)
per_slot-suc slot n = (slot / suc n, ground arith)

abbrev key : ℕ → List ℕ
key n = n ∷ 2 ∷ 3 ∷ 4 ∷ 5 ∷ 6 ∷ []

-- Epoch `e` of two slots, with validators 3 and 5 as its proposers.
abbrev two_proposers : ℕ → List Assignment
two_proposers e =
    record { validator_index = 3; public_key = key 3; proposer_slots = (2 * e + 1) ∷ [] }
    ∷ record { validator_index = 5; public_key = key 5; proposer_slots = (2 * e) ∷ [] }
    ∷ []

two_proposers_keys : (e : ℕ) → All (λ a. 6 ≤ length a.public_key) (two_proposers e)
two_proposers_keys e = omega arith

abbrev example_maps : ℕ → Proposers
example_maps e = process_next_epoch_assignments hex (two_proposers e)

process_next_epoch_assignments_lem_example :
    (lookup 8 (example_maps 4).slot_to_index ≡ last_proposer 8 (two_proposers 4))
    × (lookup 5 (example_maps 4).index_to_pub_key ≡ last_key hex 5 (two_proposers 4))
process_next_epoch_assignments_lem_example =
    process_next_epoch_assignments_lem hex (two_proposers 4) 8 5

last_proposer_run : last_proposer 8 (two_proposers 4) ≡ some 5
unfolding last_proposer
last_proposer_run = refl

log_proposer_schedule_slots_example :
    IsSorted (map (λ (e : Entry). e.slot) (log_proposer_schedule 4 (example_maps 4)))
    × Perm
        (map (λ (e : Entry). e.slot) (log_proposer_schedule 4 (example_maps 4)))
        (keys (example_maps 4).slot_to_index)
log_proposer_schedule_slots_example = log_proposer_schedule_slots 4 (example_maps 4)

-- The current assignments contradict the stored ones on slot 8, and the check says nothing.
check_compatibility_silent_example :
    check_compatibility hex 4 no_proposers (example_maps 5) (two_proposers 4) ≡ done none
unfolding process_next_epoch_assignments add_assignments add_assignment add_slots insert lookup
check_compatibility_silent_example =
    check_compatibility_silent hex 4 no_proposers (example_maps 5) (two_proposers 4)
      ((refl, tt), ((refl, tt), tt)) refl

abbrev at_epoch_four : Client
at_epoch_four = record {
  cur_slot = 8;
  cur_epoch = 4;
  prev_epoch = 4;
  cur = example_maps 4;
  next = example_maps 5;
  slots_per_epoch = 2;
  first_time = false;
}

tick_after_skip_example :
    (end : Client) × (r : Report) × (tick hex per_slot
        (Tracking.truthful hex per_slot length-hex two_proposers two_proposers_keys 2 halves
          per_slot-two 14)
        at_epoch_four
      ≡ done (changed end r))
    × (end.prev_epoch ≡ 7)
    × (end.cur ≡ example_maps 5)
    × (r.current ≡ log_proposer_schedule 7 (example_maps 5))
tick_after_skip_example =
    tick_after_skip hex per_slot length-hex two_proposers two_proposers_keys 2 halves per_slot-two
      at_epoch_four 14
      (record { started = refl; per_epoch = refl; current = refl; following = refl }) (omega arith)
      (omega arith)

-- A node at one address, behind a connection without certificates.
abbrev local_grpc : Grpc
local_grpc = record {
  Credentials = ℕ;
  Connection = ℕ;
  new_client_tls_from_file = λ file. none;
  dial_context = λ endpoint options. if str_eq endpoint "127.0.0.1:4000" then some 0 else none;
  answers = λ conn.
      map
        (Tracking.truthful hex per_slot length-hex two_proposers two_proposers_keys 2 halves
          per_slot-two)
        (8 ∷ 8 ∷ 11 ∷ []);
}

main_lem_example :
    (end : Client × List Report) × (main local_grpc hex per_slot 2 "127.0.0.1:4000"
      ≡ done (notices 2 "127.0.0.1:4000", ran end))
    × Tracking.Tracks hex per_slot length-hex two_proposers two_proposers_keys 2 halves per_slot-two
        end.0
    × (end.0.prev_epoch ≡ 5)
main_lem_example =
    main_lem local_grpc hex per_slot length-hex two_proposers two_proposers_keys 2 halves
      per_slot-two "127.0.0.1:4000" 0 8 (8 ∷ 11 ∷ []) refl refl (omega arith) (omega arith)

truthful-AnswersLong :
    (slots : List ℕ)
    → All AnswersLong (
        map
          (Tracking.truthful hex per_slot length-hex two_proposers two_proposers_keys 2 halves
            per_slot-two)
          slots)
truthful-AnswersLong [] = tt
truthful-AnswersLong (head ∷ slots) =
    let long = λ (e : ℕ) (l : List Assignment) (p : some (two_proposers e) ≡ some l).
      let same : two_proposers e ≡ l = cc in
      subst (All (λ a. 6 ≤ length a.public_key)) same (two_proposers_keys e) in
    ((λ l p. long (halves head + 1) l p, long), truthful-AnswersLong slots)

abbrev no_slots_given : ℕ
no_slots_given = 0

main_panics_iff_example :
    (main local_grpc hex per_slot no_slots_given "127.0.0.1:4000" ≡ panic)
    ↔ ((no_slots_given ≡ 0) × (any_head (local_grpc.answers 0) ≡ true))
main_panics_iff_example =
    main_panics_iff local_grpc hex per_slot length-hex (λ slot. refl) per_slot-suc no_slots_given
      "127.0.0.1:4000" 0 refl (truthful-AnswersLong (8 ∷ 8 ∷ 11 ∷ []))

-- With no slots in an epoch, `main` logs that it takes 32, and runs with none.
no_slots : notices 0 "127.0.0.1:4000" ≡ no_slots_per_epoch ∷ []
unfolding notices
no_slots = refl
