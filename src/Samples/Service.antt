-- ===== src/Samples/Service.antt =====
-- golang_test/real-world/test-example/goroutine.go: `Start` of a service. It waits for its only
-- goroutine, so the two run one after the other; the sleep only delays.
use eth_research.Base.{
  ℕ, ◌+◌, ◌-◌, ◌≡◌, refl, inl, inr, ◌⊎◌, Bool, true, false, not, Option, none, some, ◌==◌,
  if◌then◌else◌, Bool-cases, Outcome, done, panic, ◌>>=◌,
}

pub record Service : Type 0 where
  pub connected : Bool
  pub is_running : Bool
  pub counter : ℕ

abbrev pub new_service : Service
new_service = record { connected = false; is_running = false; counter = 0 }

pub data ServiceError : Type 0 where
  cannot_start : ServiceError

-- How `Start` ends: it returns an error or nil, or waits for ever.
pub data Started : Type 0 where
  returned : Option ServiceError → Service → Started
  waits : Service → Started

-- `wg.Done`
unfoldable pub wait_group_done : Service → Outcome Service
wait_group_done s = if s.counter == 0 then panic else done (record s { counter = s.counter - 1 })

-- The goroutine, with the error that it returns.
unfoldable pub run_goroutine : Service → Outcome (Option ServiceError × Service)
run_goroutine s =
    let running : Service = record s { is_running = true } in
    if not running.connected
    then (do s1 ← wait_group_done running; done (some cannot_start, s1))
    else done (none, running)

-- `wg.Wait`, after which `Start` returns nil.
unfoldable pub wait_group_wait : Service → Started
wait_group_wait s = if s.counter == 0 then returned none s else waits s

-- `Start`, which drops what the goroutine returns.
unfoldable pub start : Service → Outcome Started
start s = do
  (dropped, s1) ← run_goroutine (record s { counter = s.counter + 1 })
  done (wait_group_wait s1)

abbrev pub after_failure : Service
after_failure = record { connected = false; is_running = true; counter = 0 }

-- `Start` of a service whose counter is zero never panics, and never returns an error: where the
-- service is not connected, the goroutine returns one, and `Start` returns nil and leaves the
-- service running; where it is connected, `Start` waits for ever.
pub start_lem :
    (s : Service)
    → s.counter ≡ 0
    → ((s.connected ≡ false)
        × (run_goroutine (record s { counter = 1 }) ≡ done (some cannot_start, after_failure))
        × (start s ≡ done (returned none after_failure)))
      ⊎ ((s.connected ≡ true)
          × (start s ≡ done (waits (record { connected = true; is_running = true; counter = 1 }))))
unfolding start run_goroutine wait_group_done wait_group_wait
start_lem s e = elim (Bool-cases s.connected) [
  | inl yes_ ↦ inr (yes_, rw (start, run_goroutine, yes_, e) refl)
  | inr no_ ↦ inl (no_, rw (run_goroutine, no_) refl, rw (start, run_goroutine, no_, e) refl)
]
