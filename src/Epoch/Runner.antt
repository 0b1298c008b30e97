-- ===== src/Epoch/Runner.antt =====
-- epoch-extractor/main.go: `runner`, as a step function over the ticks of its timer. What the
-- beacon node answers during a tick is an argument of the step.
pub mod Runs
pub mod Tracking
pub mod Panics
use eth_research.Base.{
  ℕ, zero, suc, ◌+◌, ◌%◌, ◌^◌, List, [], ◌∷◌, ◌++◌, Option, none, some, Bool, true, false, ◌||◌,
  leb, if◌then◌else◌, Outcome, done, panic, ◌>>=◌,
}
use eth_research.Epoch.Assignments.{
  Assignment, Proposers, no_proposers, process_next_epoch_assignments,
}
use eth_research.Epoch.Schedule.{Entry, Mismatch, log_proposer_schedule, check_compatibility}

-- The fields of `Client` that `runner` reads or writes, and its variable `firsTime`.
pub record Client : Type 0 where
  pub cur_slot : ℕ
  pub cur_epoch : ℕ
  pub prev_epoch : ℕ
  pub cur : Proposers
  pub next : Proposers
  pub slots_per_epoch : ℕ
  pub first_time : Bool

abbrev pub new_client : ℕ → Client
new_client slots_per_epoch = record {
  cur_slot = 0;
  cur_epoch = 0;
  prev_epoch = 0;
  cur = no_proposers;
  next = no_proposers;
  slots_per_epoch = slots_per_epoch;
  first_time = true;
}

-- The answers of the beacon node to `GetChainHead`, `NextEpochProposerList` and
-- `ListValidatorAssignments`; `none` is an error.
pub record Beacon : Type 0 where
  pub chain_head : Option ℕ
  pub next_epoch_proposer_list : Option (List Assignment)
  pub validator_assignments : ℕ → Option (List Assignment)

-- What a tick logs of an epoch change: the schedules of two epochs, and the check's report.
pub record Report : Type 0 where
  pub current : List Entry
  pub following : List Entry
  pub mismatch : Option Mismatch

-- How a tick ends: the loop goes on, with a report after an epoch change, or `runner` returns.
pub data Tick : Type 0 where
  idle : Client → Tick
  changed : Client → Report → Tick
  stopped : Client → Tick

-- `CanonicalHeadSlot`
unfoldable pub canonical_head_slot : Beacon → Client → Option Client
canonical_head_slot b c = elim b.chain_head [
  | none ↦ none
  | some head ↦ some (record c { cur_slot = head })
]

-- `common.Bytes2Hex` is go-ethereum's.
module _ (bytes2hex : List ℕ → List ℕ) where
  -- What follows the second request, with the client as it stands after the first.
  unfoldable pub finish_change : Client → List Assignment → Outcome Tick
  finish_change c assignments =
      let first = process_next_epoch_assignments bytes2hex assignments in
      let c' = if c.first_time then record c { cur = first; first_time = false } else c in
      do
        mismatch ← check_compatibility bytes2hex c'.cur_epoch c'.cur c'.next assignments
        done (
            changed c' (record {
              current = log_proposer_schedule c'.cur_epoch c'.cur;
              following = log_proposer_schedule ((c'.cur_epoch + 1) % 2 ^ 64) c'.next;
              mismatch = mismatch;
            }))

  -- The body of `if firsTime || c.curEpoch >= c.prevEpoch + 1`.
  unfoldable pub epoch_change : Beacon → Client → Outcome Tick
  epoch_change b c =
      let c1 = record c { prev_epoch = c.cur_epoch } in
      elim b.next_epoch_proposer_list [
        | none ↦ done (stopped c1)
        | some next_assignments ↦
            let c2 = record c1 {
              cur = c1.next;
              next = process_next_epoch_assignments bytes2hex next_assignments;
            } in
            elim (b.validator_assignments c2.cur_epoch) [
              | none ↦ done (stopped c2)
              | some assignments ↦ finish_change c2 assignments
            ]
      ]

-- `Slot.DivSlot` is eth2-types', and can panic.
module _ (bytes2hex : List ℕ → List ℕ) (div_slot : ℕ → ℕ → Outcome ℕ) where
  unfoldable pub tick : Beacon → Client → Outcome Tick
  tick b c = elim (canonical_head_slot b c) [
    | none ↦ done (idle c)
    | some c1 ↦ do
      epoch ← div_slot c1.cur_slot c1.slots_per_epoch
      (let c2 = record c1 { cur_epoch = epoch } in
          if c2.first_time || leb ((c2.prev_epoch + 1) % 2 ^ 64) c2.cur_epoch
          then epoch_change bytes2hex b c2
          else done (idle c2))
  ]

  -- The loop over the ticks that come before the context is done. It ends early when a tick
  -- makes `runner` return; the reports are those of the epoch changes, in order.
  unfoldable pub runner : List Beacon → Client → Outcome (Client × List Report)
  runner [] c = done (c, [])
  runner (b ∷ ticks) c = do
    t ← tick b c
    (elim t [
      | idle c' ↦ runner ticks c'
      | stopped c' ↦ done (c', [])
      | changed c' r ↦ do (end, later) ← runner ticks c'; done (end, r ∷ later)
    ])
