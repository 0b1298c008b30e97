-- ===== src/Epoch/Runner/Panics.antt =====
-- epoch-extractor/main.go: when `runner` panics, at any node.
use eth_research.Base.{
  ℕ, ◌*◌, ◌≤◌, ◌≡◌, refl, ◌∙◌, inl, inr, List, [], ◌∷◌, Option, none, some, Bool, true, false, ◌||◌,
  length, All, Outcome, done, panic, arith, Bool-cases, Option-cases, leb, ◌+◌, ◌%◌, ◌^◌,
}
use eth_research.Epoch.Assignments.{Assignment, process_next_epoch_assignments}
use eth_research.Epoch.Schedule.{Mismatch, check_compatibility}
use eth_research.Epoch.Schedule.Check.{check_compatibility_total, stored_key_long}
use eth_research.Epoch.Runner.{
  Client, Beacon, Report, Tick, idle, changed, stopped, canonical_head_slot, finish_change,
  epoch_change, tick, runner,
}
use eth_research.Epoch.Runner.Tracking.{client}

abbrev pub LongKeys : List Assignment → Type 0
LongKeys = All (λ a. 6 ≤ length a.public_key)

-- A node whose answers have keys of 6 bytes or more.
abbrev pub AnswersLong : Beacon → Type 0
AnswersLong b =
    ((l : List Assignment) → b.next_epoch_proposer_list ≡ some l → LongKeys l)
    × ((e : ℕ) (l : List Assignment) → b.validator_assignments e ≡ some l → LongKeys l)

abbrev pub has_head : Beacon → Bool
has_head b = elim b.chain_head [ none ↦ false | some head ↦ true ]

abbrev pub any_head : List Beacon → Bool
any_head [] = false
any_head (b ∷ ticks) = has_head b || any_head ticks

module _ (bytes2hex : List ℕ → List ℕ)
    (hex_digits : (b : List ℕ) → length (bytes2hex b) ≡ 2 * length b) where
  -- A tick that does not panic, and keeps the slots of an epoch.
  abbrev Ends : Outcome Tick → Client → Type 0
  Ends o c = (t : Tick) × (o ≡ done t) × ((client t).slots_per_epoch ≡ c.slots_per_epoch)

  check_done :
      (c : Client) (next given : List Assignment)
      → c.next ≡ process_next_epoch_assignments bytes2hex next
      → LongKeys next
      → LongKeys given
      → (m : Option Mismatch) × (check_compatibility bytes2hex c.cur_epoch c.cur c.next given
          ≡ done m)
  check_done c next given is long_next long = rw is (
      check_compatibility_total bytes2hex c.cur_epoch c.cur
        (process_next_epoch_assignments bytes2hex next) hex_digits
        (λ slot. stored_key_long bytes2hex hex_digits next slot long_next) given long)

  finish_change_total :
      (c : Client) (next given : List Assignment)
      → c.next ≡ process_next_epoch_assignments bytes2hex next
      → LongKeys next
      → LongKeys given
      → Ends (finish_change bytes2hex c given) c
  unfolding finish_change
  finish_change_total c next given is long_next long = elim (Bool-cases c.first_time) [
    | inl first ↦
        let c' = record c {
          cur = process_next_epoch_assignments bytes2hex given;
          first_time = false;
        } in
        let (m, e) = check_done c' next given is long_next long in rw (first, e) (_, refl, refl)
    | inr later ↦
        let (m, e) = check_done c next given is long_next long in rw (later, e) (_, refl, refl)
  ]

  epoch_change_total :
      (b : Beacon) (c : Client) → AnswersLong b → Ends (epoch_change bytes2hex b c) c
  unfolding epoch_change
  epoch_change_total b c (long_next, long) = elim (Option-cases b.next_epoch_proposer_list) [
    | inl failed ↦ rw failed (_, refl, refl)
    | inr (next, asked) ↦ elim (Option-cases (b.validator_assignments c.cur_epoch)) [
      | inl failed ↦ rw (asked, failed) (_, refl, refl)
      | inr (given, answered) ↦
          rw (asked, answered)
            (finish_change_total
              (record c {
                prev_epoch = c.cur_epoch;
                cur = c.next;
                next = process_next_epoch_assignments bytes2hex next;
              })
              next given refl (long_next next asked) (long c.cur_epoch given answered))
    ]
  ]

  module _ (div_slot : ℕ → ℕ → Outcome ℕ) where
    tick_total :
        (b : Beacon) (c : Client)
        → ((slot : ℕ) → (e : ℕ) × (div_slot slot c.slots_per_epoch ≡ done e))
        → AnswersLong b
        → Ends (tick bytes2hex div_slot b c) c
    unfolding tick canonical_head_slot
    tick_total b c divides long = elim (Option-cases b.chain_head) [
      | inl failed ↦ rw failed (_, refl, refl)
      | inr (head, answered) ↦
          let (e, divided) = divides head in
          let c2 = record c { cur_slot = head; cur_epoch = e } in
          elim (Bool-cases (c.first_time || leb ((c.prev_epoch + 1) % 2 ^ 64) e)) [
            | inl due ↦
                rw (tick, canonical_head_slot, answered, divided, due)
                  (epoch_change_total b c2 long)
            | inr same ↦ rw (tick, canonical_head_slot, answered, divided, same) (_, refl, refl)
          ]
    ]

    -- A run whose first tick ends.
    runner_step :
        (b : Beacon) (ticks : List Beacon) (c : Client) (t : Tick)
        → tick bytes2hex div_slot b c ≡ done t
        → ((end : Client × List Report) × (runner bytes2hex div_slot ticks (client t) ≡ done end))
        → (end : Client × List Report) × (runner bytes2hex div_slot (b ∷ ticks) c ≡ done end)
    unfolding runner
    runner_step b ticks c (idle c') p (end, q) = (end, rw p q)
    runner_step b ticks c (changed c' r) p ((end, later), q) = ((end, r ∷ later), rw p (rw q refl))
    runner_step b ticks c (stopped c') p rest = ((c', []), rw p refl)

    pub runner_total :
        (ticks : List Beacon) (c : Client) (spe : ℕ)
        → ((slot : ℕ) → (e : ℕ) × (div_slot slot spe ≡ done e))
        → c.slots_per_epoch ≡ spe
        → All AnswersLong ticks
        → (end : Client × List Report) × (runner bytes2hex div_slot ticks c ≡ done end)
    runner_total [] c spe divides per long = ((c, []), unfold runner in refl)
    runner_total (b ∷ ticks) c spe divides per (here, long) =
        let (t, p, kept) = tick_total b c (λ slot. rw per (divides slot)) here in
        runner_step b ticks c t p (runner_total ticks (client t) spe divides (kept ∙ per) long)

    -- Without a head every tick is idle.
    pub runner_idle :
        (ticks : List Beacon) (c : Client)
        → any_head ticks ≡ false
        → runner bytes2hex div_slot ticks c ≡ done (c, [])
    unfolding runner tick canonical_head_slot
    runner_idle [] c quiet = refl
    runner_idle (b ∷ ticks) c quiet = elim (Option-cases b.chain_head) [
      | inl failed ↦ rw failed (runner_idle ticks c (rw failed at quiet))
      | inr (head, answered) ↦ absurd (ground (arith, quiet, answered))
    ]

    pub runner_panics :
        (ticks : List Beacon) (c : Client)
        → ((slot : ℕ) → div_slot slot c.slots_per_epoch ≡ panic)
        → any_head ticks ≡ true
        → runner bytes2hex div_slot ticks c ≡ panic
    unfolding runner tick canonical_head_slot
    runner_panics [] c undivided some_head = absurd (ground (arith, some_head))
    runner_panics (b ∷ ticks) c undivided some_head = elim (Option-cases b.chain_head) [
      | inl failed ↦ rw failed (runner_panics ticks c undivided (rw failed at some_head))
      | inr (head, answered) ↦ rw (answered, undivided head) refl
    ]
