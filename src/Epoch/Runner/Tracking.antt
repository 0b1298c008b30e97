-- ===== src/Epoch/Runner/Tracking.antt =====
-- epoch-extractor/main.go: the maps of the current and the next epoch over single ticks of `runner`.
use eth_research.Base.{
  ℕ, ◌+◌, ◌*◌, ◌%◌, ◌^◌, ◌≤◌, ◌<◌, ◌≡◌, refl, List, Option, some, length, All, Outcome, done, arith,
  true, false,
}
use eth_research.Epoch.Assignments.{Assignment, Proposers, process_next_epoch_assignments}
use eth_research.Epoch.Schedule.{Mismatch, log_proposer_schedule, check_compatibility}
use eth_research.Epoch.Schedule.Check.{check_compatibility_total, stored_key_long}
use eth_research.Epoch.Runner.{
  Client, Beacon, Report, Tick, idle, changed, stopped, canonical_head_slot, finish_change,
  epoch_change, tick,
}

-- The client as a tick leaves it.
abbrev pub client : Tick → Client
client (idle c) = c
client (changed c r) = c
client (stopped c) = c

abbrev pub GoesOn : Tick → Type 0
GoesOn (stopped c) = ⊥
GoesOn _ = Unit

module _ (bytes2hex : List ℕ → List ℕ) (div_slot : ℕ → ℕ → Outcome ℕ)
    (hex_digits : (b : List ℕ) → length (bytes2hex b) ≡ 2 * length b)
    -- the proposers of each epoch, with keys of 6 bytes or more
    (proposers : ℕ → List Assignment)
    (long_keys : (e : ℕ) → All (λ a. 6 ≤ length a.public_key) (proposers e))
    -- the epoch of each slot, by a number of slots in an epoch that can be divided by
    (spe : ℕ) (epoch_of : ℕ → ℕ)
    (divides : (slot : ℕ) → div_slot slot spe ≡ done (epoch_of slot)) where
  -- What a truthful node answers when its head is at a slot.
  abbrev pub truthful : ℕ → Beacon
  truthful head = record {
    chain_head = some head;
    next_epoch_proposer_list = some (proposers (epoch_of head + 1));
    validator_assignments = λ e. some (proposers e);
  }

  abbrev pub maps : ℕ → Proposers
  maps e = process_next_epoch_assignments bytes2hex (proposers e)

  -- The maps are those of the last epoch that was processed, and of the one after it.
  pub record Tracks (c : Client) : Type 0 where
    pub started : c.first_time ≡ false
    pub per_epoch : c.slots_per_epoch ≡ spe
    pub current : c.cur ≡ maps c.prev_epoch
    pub following : c.next ≡ maps (c.prev_epoch + 1)

  abbrev pub report : ℕ → Proposers → Option Mismatch → Report
  report epoch cur m = record {
    current = log_proposer_schedule epoch cur;
    following = log_proposer_schedule ((epoch + 1) % 2 ^ 64) (maps (epoch + 1));
    mismatch = m;
  }

  pub check_total :
      (epoch : ℕ) (cur : Proposers) (e f : ℕ)
      → (m : Option Mismatch) × (check_compatibility bytes2hex epoch cur (maps f) (proposers e)
          ≡ done m)
  check_total epoch cur e f =
      check_compatibility_total bytes2hex epoch cur (maps f) hex_digits
        (λ slot. stored_key_long bytes2hex hex_digits (proposers f) slot (long_keys f))
        (proposers e) (long_keys e)

  -- An epoch change of a client that has started.
  pub change_started :
      (c : Client) (head : ℕ)
      → c.first_time ≡ false
      → c.cur_epoch ≡ epoch_of head
      → (m : Option Mismatch) × (epoch_change bytes2hex (truthful head) c
          ≡ done (
              changed
                (record c { prev_epoch = c.cur_epoch; cur = c.next; next = maps (c.cur_epoch + 1) })
                (report c.cur_epoch c.next m)))
  unfolding epoch_change finish_change
  change_started c head started at =
      let (m, e) = check_total c.cur_epoch c.next c.cur_epoch (c.cur_epoch + 1) in
      (m, ground (arith, e))

  pub change_first :
      (c : Client) (head : ℕ)
      → c.first_time ≡ true
      → c.cur_epoch ≡ epoch_of head
      → (r : Report) × (epoch_change bytes2hex (truthful head) c
          ≡ done (
              changed
                (record c {
                  prev_epoch = c.cur_epoch;
                  cur = maps c.cur_epoch;
                  next = maps (c.cur_epoch + 1);
                  first_time = false;
                })
                r))
  unfolding epoch_change finish_change
  change_first c head started at =
      let (m, e) = check_total c.cur_epoch (maps c.cur_epoch) c.cur_epoch (c.cur_epoch + 1) in
      (report c.cur_epoch (maps c.cur_epoch) m, ground (arith, e))

  -- The three ways in which a tick can end at a truthful node.
  pub tick_first :
      (c : Client) (head : ℕ)
      → c.first_time ≡ true
      → c.slots_per_epoch ≡ spe
      → (r : Report) × (tick bytes2hex div_slot (truthful head) c
          ≡ done (
              changed
                (record {
                  cur_slot = head;
                  cur_epoch = epoch_of head;
                  prev_epoch = epoch_of head;
                  cur = maps (epoch_of head);
                  next = maps (epoch_of head + 1);
                  slots_per_epoch = spe;
                  first_time = false;
                })
                r))
  unfolding tick canonical_head_slot
  tick_first c head first per =
      let e = epoch_of head in
      let c' = record c { cur_slot = head; cur_epoch = e } in
      let (r, p) = change_first c' head first refl in (r, ground (arith, p, per, divides head))

  pub tick_next :
      (c : Client) (head : ℕ)
      → Tracks c
      → c.prev_epoch + 1 ≤ epoch_of head
      → epoch_of head < 2 ^ 64
      → (m : Option Mismatch) × (tick bytes2hex div_slot (truthful head) c
          ≡ done (
              changed
                (record {
                  cur_slot = head;
                  cur_epoch = epoch_of head;
                  prev_epoch = epoch_of head;
                  cur = maps (c.prev_epoch + 1);
                  next = maps (epoch_of head + 1);
                  slots_per_epoch = spe;
                  first_time = false;
                })
                (report (epoch_of head) (maps (c.prev_epoch + 1)) m)))
  unfolding tick canonical_head_slot
  tick_next c head t later fits =
      let e = epoch_of head in
      let c' = record c { cur_slot = head; cur_epoch = e } in
      let (m, p) = change_started c' head t.started refl in
      (m, ground (arith, p, t.started, t.per_epoch, t.following, divides head))

  pub tick_idle :
      (c : Client) (head : ℕ)
      → Tracks c
      → epoch_of head ≤ c.prev_epoch
      → c.prev_epoch + 1 < 2 ^ 64
      → tick bytes2hex div_slot (truthful head) c
        ≡ done (idle (record c { cur_slot = head; cur_epoch = epoch_of head }))
  unfolding tick canonical_head_slot
  tick_idle c head t same fits = ground (arith, t.started, t.per_epoch, divides head)
