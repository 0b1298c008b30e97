-- ===== src/Samples/WaitGroup/Ends.antt =====
-- golang_test/syncing-test/wait-group/waitgroup.go: every run of `WaitForWorker` returns.
use eth_research.Base.{
  ℕ, zero, suc, ◌+◌, ◌-◌, ◌*◌, ◌<◌, ◌≡◌, refl, inl, inr, ◌⊎◌, List, [], ◌∷◌, some, length,
  length-append, length-set, get_elem?, set, arith, ltb, ltb→lt, Bool-cases, ◌≢◌,
}
use eth_research.Samples.WaitGroup.{
  Phase, ready, asleep, awake, gone, Place, adding, spawning, waiting, returned, State, Line, Step,
  Run, initial, here, next, starting, finished, add, go, wait, finish, begin, end, leave, over_done,
  crashed,
}
use eth_research.Samples.WaitGroup.Counts.{
  total, total-append, total-set, todo, present, printed, Fits, IsSound, Fits-empty, Step-IsSound,
}
use eth_research.Samples.WaitGroup.Printed.{occurs, HasPrinted, Run-HasPrinted, gone_lines}

module _ (n : ℕ) where
  -- The steps that are left.
  abbrev left_of : Place → List Phase → ℕ
  left_of adding ws = 5 * (n - length ws) + 2 + total todo ws
  left_of spawning ws = 5 * (n - length ws) + 1 + total todo ws
  left_of waiting ws = 1 + total todo ws
  left_of returned ws = total todo ws
  left_of crashed ws = 0

  left_of-less :
      (p : Place) (c : ℕ) (ws vs : List Phase)
      → Fits n p c ws
      → total todo vs + 1 ≡ total todo ws
      → length vs ≡ length ws
      → suc (left_of p vs) ≡ left_of p ws
  left_of-less adding c ws vs fits e l = omega (arith, e, l)
  left_of-less spawning c ws vs fits e l = omega (arith, e, l)
  left_of-less waiting c ws vs fits e l = omega (arith, e)
  left_of-less returned c ws vs fits e l = omega (arith, e)
  left_of-less crashed c ws vs fits e l = absurd (omega (arith, fits))

  Step-left_of :
      {s t : State}
      → Step n s t
      → IsSound n s
      → suc (left_of t.place t.workers) ≡ left_of s.place s.workers
  Step-left_of (add {c} {ws} {ls} low) sound = omega arith
  Step-left_of (go {c} {ws} {ls}) ((a, b), l) =
      omega (arith, b, length-append ws (ready ∷ []), total-append todo ws ready)
  Step-left_of (wait {c} {ws} {ls} full) sound = omega (arith, full)
  Step-left_of (finish {ws} {ls}) sound = omega arith
  Step-left_of (begin {p} {c} {ws} {ls} j at) (fits, l) =
      left_of-less p c ws (set ws j asleep) fits
        (omega (arith, total-set todo ws j ready asleep at)) (length-set ws j asleep)
  Step-left_of (end {p} {c} {ws} {ls} j at) (fits, l) =
      left_of-less p c ws (set ws j awake) fits (omega (arith, total-set todo ws j asleep awake at))
        (length-set ws j awake)
  Step-left_of (leave {p} {c} {ws} {ls} j at) (fits, l) =
      left_of-less p (suc c) ws (set ws j gone) fits
        (omega (arith, total-set todo ws j awake gone at)) (length-set ws j gone)
  Step-left_of (over_done {p} {ws} {ls} j at) (fits, l) =
      absurd (omega (arith, Fits-empty n p ws j at fits))

  initial-IsSound : IsSound n initial
  initial-IsSound = ((refl, omega arith), refl)

  Run-IsSound :
      {k : ℕ} {s : State} → Run n k s → IsSound n s × (k + left_of s.place s.workers ≡ 5 * n + 2)
  Run-IsSound here = (initial-IsSound, omega arith)
  Run-IsSound (next r st) =
      let (sound, count) = Run-IsSound r in
      (Step-IsSound n st sound, omega (arith, count, Step-left_of st sound))

  -- A worker that is not gone can move.
  worker_moves :
      (ws : List Phase)
      → (total present ws ≡ 0)
        ⊎ ((j : ℕ) × ((get_elem? ws j ≡ some ready)
              ⊎ ((get_elem? ws j ≡ some asleep) ⊎ (get_elem? ws j ≡ some awake))))
  worker_moves [] = inl refl
  worker_moves (ready ∷ ws) = inr (0, inl refl)
  worker_moves (asleep ∷ ws) = inr (0, inr (inl refl))
  worker_moves (awake ∷ ws) = inr (0, inr (inr refl))
  worker_moves (gone ∷ ws) = elim (worker_moves ws) [
    | inl none_left ↦ inl (omega (arith, none_left))
    | inr (j, at) ↦ inr (suc j, at)
  ]

  worker_steps :
      (p : Place) (c : ℕ) (ws : List Phase) (ls : List Line) (j : ℕ)
      → (get_elem? ws j ≡ some ready)
        ⊎ ((get_elem? ws j ≡ some asleep) ⊎ (get_elem? ws j ≡ some awake))
      → (t : State) × Step n (record { place = p; counter = c; workers = ws; lines = ls }) t
  worker_steps p c ws ls j (inl at) = (_, begin j at)
  worker_steps p c ws ls j (inr (inl at)) = (_, end j at)
  worker_steps p zero ws ls j (inr (inr at)) = (_, over_done j at)
  worker_steps p (suc c) ws ls j (inr (inr at)) = (_, leave j at)

  finish_at :
      (c : ℕ) (ws : List Phase) (ls : List Line)
      → c ≡ 0
      → (t : State) × Step n (record { place = waiting; counter = c; workers = ws; lines = ls }) t
  finish_at zero ws ls e = (_, finish)
  finish_at (suc c) ws ls e = absurd (omega (arith, e))

  next_exists :
      (p : Place) (c : ℕ) (ws : List Phase) (ls : List Line)
      → Fits n p c ws
      → (p ≡ returned)
        ⊎ ((t : State) × Step n (record { place = p; counter = c; workers = ws; lines = ls }) t)
  next_exists adding c ws ls (a, b) = elim (Bool-cases (ltb (length ws) n)) [
    | inl low ↦ inr (_, add (ltb→lt (length ws) n low))
    | inr full ↦ let all : length ws ≡ n = ground (arith, b, full) in inr (_, wait all)
  ]
  next_exists spawning c ws ls fits = inr (_, go)
  next_exists waiting c ws ls (a, b) = elim (worker_moves ws) [
    | inr (j, at) ↦ inr (worker_steps waiting c ws ls j at)
    | inl none_left ↦ inr (finish_at c ws ls (omega (arith, a, none_left)))
  ]
  next_exists returned c ws ls fits = inl refl
  next_exists crashed c ws ls fits = absurd (omega (arith, fits))

  all_gone :
      (ws : List Phase)
      → total present ws ≡ 0
      → (total todo ws ≡ 0) × (total printed ws ≡ 2 * length ws)
  all_gone [] e = (refl, refl)
  all_gone (gone ∷ ws) e =
      let (a, b) = all_gone ws (omega (arith, e)) in (omega (arith, a), omega (arith, b))
  all_gone (ready ∷ ws) e = absurd (omega (arith, e))
  all_gone (asleep ∷ ws) e = absurd (omega (arith, e))
  all_gone (awake ∷ ws) e = absurd (omega (arith, e))

  gone_at :
      (ws : List Phase) (j : ℕ) → total present ws ≡ 0 → j < length ws → get_elem? ws j ≡ some gone
  gone_at [] j e low = absurd (omega (arith, low))
  gone_at (gone ∷ ws) zero e low = refl
  gone_at (gone ∷ ws) (suc j) e low = gone_at ws j (omega (arith, e)) (omega (arith, low))
  gone_at (ready ∷ ws) j e low = absurd (omega (arith, e))
  gone_at (asleep ∷ ws) j e low = absurd (omega (arith, e))
  gone_at (awake ∷ ws) j e low = absurd (omega (arith, e))

  -- The lines of n workers: each of them once, and no others.
  abbrev pub AreWhole : List Line → Type 0
  AreWhole ls =
      (length ls ≡ 2 * n)
      × ((j : ℕ) → j < n → (occurs (starting (suc j)) ls ≡ 1) × (occurs (finished (suc j)) ls ≡ 1))

  ends_at :
      (p : Place) (c k : ℕ) (ws : List Phase) (ls : List Line)
      → Fits n p c ws
      → length ls ≡ total printed ws
      → k + left_of p ws ≡ 5 * n + 2
      → HasPrinted ws ls
      → p ≡ returned
      → (k ≡ 5 * n + 2) × AreWhole ls
  ends_at returned c k ws ls (a, b) l count printed_lines e =
      let (none_left, both) = all_gone ws (omega (arith, a)) in
      (
        omega (arith, none_left, count),
        (
          omega (arith, l, both, b),
          λ j low.
              let at = gone_at ws j (omega (arith, a)) (omega (arith, low, b)) in
              gone_lines n ws ls j printed_lines at,
        ),
      )
  ends_at adding c k ws ls fits l count printed_lines e = cc
  ends_at spawning c k ws ls fits l count printed_lines e = cc
  ends_at waiting c k ws ls fits l count printed_lines e = cc
  ends_at crashed c k ws ls fits l count printed_lines e = cc

  not_crashed : (p : Place) (c : ℕ) (ws : List Phase) → Fits n p c ws → p ≢ crashed
  not_crashed adding c ws fits e = cc
  not_crashed spawning c ws fits e = cc
  not_crashed waiting c ws fits e = cc
  not_crashed returned c ws fits e = cc
  not_crashed crashed c ws fits e = omega (arith, fits)

  -- Of `WaitForWorker` with n workers, whatever the order in which they act: no run crashes, none
  -- has more than 5 n + 2 steps, one that has returned has them all, and each of the workers 1 to n has
  -- then printed that it starts, once, and that it is finished, once, and nothing else is printed; every
  -- other run can go on. So every run that goes on returns.
  pub run_lem :
      (k : ℕ) (s : State)
      → Run n k s
      → (s.place ≢ crashed)
        × (((s.place ≡ returned) × (k ≡ 5 * n + 2) × AreWhole s.lines)
            ⊎ ((k < 5 * n + 2) × ((t : State) × Step n s t)))
  run_lem k s r =
      let ((fits, l), count) = Run-IsSound r in
      (
        not_crashed s.place s.counter s.workers fits,
        elim (next_exists s.place s.counter s.workers s.lines fits) [
          | inl over ↦
              let (steps, lines) =
                ends_at s.place s.counter k s.workers s.lines fits l count (Run-HasPrinted n r)
                  over in
              inl (over, steps, lines)
          | inr (t, st) ↦ inr (omega (arith, count, Step-left_of st (fits, l)), (t, st))
        ],
      )
