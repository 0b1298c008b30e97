-- ===== src/Samples/Examples.antt =====
-- Runs of the small programs of golang_test.
use eth_research.Base.{◌+◌, ◌*◌, ◌<◌, ◌≡◌, ◌≢◌, refl, ◌⊎◌, [], ◌∷◌, arith}
use eth_research.Samples.WaitGroup
use eth_research.Samples.WaitGroup.{State, Step, Run, here, next}
use eth_research.Samples.WaitGroup.Ends.{AreWhole, run_lem}

-- One worker, whose program returns after seven steps.
abbrev last : State
last = record {
  place = WaitGroup.returned;
  counter = 0;
  workers = WaitGroup.gone ∷ [];
  lines = WaitGroup.starting 1 ∷ WaitGroup.finished 1 ∷ [];
}

one_worker : Run 1 7 last
one_worker =
    next
      (next
        (next
          (next
            (next (next (next here (WaitGroup.add (omega arith))) WaitGroup.go)
              (WaitGroup.wait refl))
            (WaitGroup.begin 0 refl))
          (WaitGroup.end 0 refl))
        (WaitGroup.leave 0 refl))
      WaitGroup.finish

run_lem_example :
    (last.place ≢ WaitGroup.crashed)
    × (((last.place ≡ WaitGroup.returned) × (7 ≡ 5 * 1 + 2) × AreWhole 1 last.lines)
        ⊎ ((7 < 5 * 1 + 2) × ((t : State) × Step 1 last t)))
run_lem_example = run_lem 1 7 last one_worker
