-- ===== src/Epoch/Runner/Runs.antt =====
-- epoch-extractor/main.go: whole runs of `runner` at a node that answers truthfully.
use eth_research.Base.{
  ℕ, ◌+◌, ◌*◌, ◌^◌, ◌≤◌, ◌<◌, ◌≡◌, refl, ap, inl, inr, List, [], ◌∷◌, leb, length, map, All,
  Outcome, done, arith, Bool-cases, false, max,
}
use eth_research.Epoch.Assignments.{Assignment, Proposers}
use eth_research.Epoch.Schedule.{log_proposer_schedule}
use eth_research.Epoch.Runner.{
  Client, new_client, Beacon, Report, Tick, idle, changed, stopped, tick, runner,
}
use eth_research.Epoch.Runner.Tracking
use eth_research.Epoch.Runner.Tracking.{client, GoesOn}

module _ (bytes2hex : List ℕ → List ℕ) (div_slot : ℕ → ℕ → Outcome ℕ)
    (hex_digits : (b : List ℕ) → length (bytes2hex b) ≡ 2 * length b)
    -- the proposers of each epoch, with keys of 6 bytes or more
    (proposers : ℕ → List Assignment)
    (long_keys : (e : ℕ) → All (λ a. 6 ≤ length a.public_key) (proposers e))
    -- the epoch of each slot, by a number of slots in an epoch that can be divided by
    (spe : ℕ) (epoch_of : ℕ → ℕ)
    (divides : (slot : ℕ) → div_slot slot spe ≡ done (epoch_of slot)) where
  abbrev pub truthful : ℕ → Beacon
  truthful =
      Tracking.truthful bytes2hex div_slot hex_digits proposers long_keys spe epoch_of divides

  abbrev pub maps : ℕ → Proposers
  maps = Tracking.maps bytes2hex div_slot hex_digits proposers long_keys spe epoch_of divides

  abbrev pub Tracks : Client → Type 0
  Tracks = Tracking.Tracks bytes2hex div_slot hex_digits proposers long_keys spe epoch_of divides

  -- The node's head never runs ahead by more than one epoch between two ticks.
  abbrev pub NoSkip : ℕ → List ℕ → Type 0
  NoSkip prev [] = Unit
  NoSkip prev (head ∷ heads) =
      (epoch_of head ≤ prev + 1)
      × (epoch_of head + 1 < 2 ^ 64)
      × NoSkip (max prev (epoch_of head)) heads

  abbrev pub last_epoch : ℕ → List ℕ → ℕ
  last_epoch prev [] = prev
  last_epoch prev (head ∷ heads) = last_epoch (max prev (epoch_of head)) heads

  tick-Tracks :
      (c : Client) (head : ℕ)
      → Tracks c
      → c.prev_epoch + 1 < 2 ^ 64
      → epoch_of head ≤ c.prev_epoch + 1
      → epoch_of head + 1 < 2 ^ 64
      → (t : Tick) × (tick bytes2hex div_slot (truthful head) c ≡ done t)
        × GoesOn t
        × Tracks (client t)
        × ((client t).prev_epoch ≡ max c.prev_epoch (epoch_of head))
  tick-Tracks c head t fits near fits' = elim (Bool-cases (leb (epoch_of head) c.prev_epoch)) [
    | inl same ↦
        let p =
          Tracking.tick_idle bytes2hex div_slot hex_digits proposers long_keys spe epoch_of divides
            c head t (ground arith) fits in
        (
          _,
          p,
          tt,
          record {
            started = t.started;
            per_epoch = t.per_epoch;
            current = t.current;
            following = t.following;
          },
          ground arith,
        )
    | inr new ↦
        let (m, p) =
          Tracking.tick_next bytes2hex div_slot hex_digits proposers long_keys spe epoch_of divides
            c head t (ground arith) (omega arith) in
        let e : c.prev_epoch + 1 ≡ epoch_of head = ground arith in
        (
          _,
          p,
          tt,
          record { started = refl; per_epoch = refl; current = ap maps e; following = refl },
          ground arith,
        )
  ]

  -- One tick in front of a run that ends as wanted.
  abbrev pub EndsTracking : List Beacon → Client → ℕ → Type 0
  EndsTracking ticks c e =
      (end : Client × List Report) × (runner bytes2hex div_slot ticks c ≡ done end)
      × Tracks end.0
      × (end.0.prev_epoch ≡ e)

  before :
      (b : Beacon) (ticks : List Beacon) (c : Client) (e : ℕ) (t : Tick)
      → tick bytes2hex div_slot b c ≡ done t
      → GoesOn t
      → EndsTracking ticks (client t) e
      → EndsTracking (b ∷ ticks) c e
  unfolding runner
  before b ticks c e (idle c') p on (end, q, tr, at) = (end, rw p q, tr, at)
  before b ticks c e (changed c' r) p on ((end, later), q, tr, at) =
      ((end, r ∷ later), rw p (rw q refl), tr, at)
  before b ticks c e (stopped c') p on rest = absurd on

  runs-Tracks :
      (heads : List ℕ) (c : Client)
      → Tracks c
      → c.prev_epoch + 1 < 2 ^ 64
      → NoSkip c.prev_epoch heads
      → EndsTracking (map truthful heads) c (last_epoch c.prev_epoch heads)
  runs-Tracks [] c t fits near = ((c, []), unfold runner in refl, t, refl)
  runs-Tracks (head ∷ heads) c t fits near =
      let (t', p, on, tr, at) = tick-Tracks c head t fits near.0 near.1 in
      before (truthful head) (map truthful heads) c (last_epoch c.prev_epoch (head ∷ heads)) t' p on
        (rw (← at) (runs-Tracks heads (client t') tr (omega (arith, at, near.1)) (rw at near.2)))

  -- The client after its first tick.
  abbrev after_first : ℕ → Client
  after_first head = record {
    cur_slot = head;
    cur_epoch = epoch_of head;
    prev_epoch = epoch_of head;
    cur = maps (epoch_of head);
    next = maps (epoch_of head + 1);
    slots_per_epoch = spe;
    first_time = false;
  }

  after_first-Tracks : (head : ℕ) → Tracks (after_first head)
  after_first-Tracks head = record {
    started = refl;
    per_epoch = refl;
    current = refl;
    following = refl;
  }

  -- Started at a truthful node, `runner` does not panic and does not return early, as long as
  -- the head never runs ahead by more than one epoch between two ticks: after the last tick the
  -- current maps are those of the last epoch reached, and the next maps those of the epoch
  -- after it.
  pub runner-Tracks :
      (head : ℕ) (heads : List ℕ)
      → epoch_of head + 1 < 2 ^ 64
      → NoSkip (epoch_of head) heads
      → EndsTracking
          (map truthful (head ∷ heads))
          (new_client spe)
          (last_epoch (epoch_of head) heads)
  runner-Tracks head heads fits near =
      let (r, p) =
        Tracking.tick_first bytes2hex div_slot hex_digits proposers long_keys spe epoch_of divides
          (new_client spe) head refl refl in
      before (truthful head) (map truthful heads) (new_client spe)
        (last_epoch (epoch_of head) heads) (changed (after_first head) r) p tt
        (runs-Tracks heads (after_first head) (after_first-Tracks head) fits near)

  -- After a skip the current maps are wrong: at a truthful node, where `DivSlot` does not panic and
  -- keys have 6 bytes or more, when the head is two or more epochs past the last one processed, the
  -- tick stores as current, and logs under the head's epoch, the proposers of the epoch that follows
  -- the last one processed.
  pub tick_after_skip :
      (c : Client) (head : ℕ)
      → Tracks c
      → c.prev_epoch + 2 ≤ epoch_of head
      → epoch_of head < 2 ^ 64
      → (end : Client) × (r : Report) × (tick bytes2hex div_slot (truthful head) c
          ≡ done (changed end r))
        × (end.prev_epoch ≡ epoch_of head)
        × (end.cur ≡ maps (c.prev_epoch + 1))
        × (r.current ≡ log_proposer_schedule (epoch_of head) (maps (c.prev_epoch + 1)))
  tick_after_skip c head t far fits =
      let (m, p) =
        Tracking.tick_next bytes2hex div_slot hex_digits proposers long_keys spe epoch_of divides c
          head t (omega arith) fits in
      (_, _, p, refl, refl, refl)
