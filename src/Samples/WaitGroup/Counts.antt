-- ===== src/Samples/WaitGroup/Counts.antt =====
-- golang_test/syncing-test/wait-group/waitgroup.go: the counter is the number of workers that are
-- there, which no step changes.
use eth_research.Base.{
  ℕ, zero, suc, ◌+◌, ◌<◌, ◌≤◌, ◌≡◌, ap, List, [], ◌∷◌, ◌++◌, some, length, length-append,
  length-set, get_elem?, set, arith,
}
use eth_research.Samples.WaitGroup.{
  Phase, ready, asleep, awake, gone, Place, adding, spawning, waiting, returned, State, Step,
  starting, finished, add, go, wait, finish, begin, end, leave, over_done, crashed,
}

-- A quantity of each phase, added up.
abbrev pub total : (Phase → ℕ) → List Phase → ℕ
total f [] = 0
total f (w ∷ ws) = f w + total f ws

pub total-append :
    (f : Phase → ℕ) (ws : List Phase) (w : Phase) → total f (ws ++ (w ∷ [])) ≡ total f ws + f w
total-append f [] w = omega arith
total-append f (v ∷ ws) w = omega (arith, total-append f ws w)

pub total-set :
    (f : Phase → ℕ) (ws : List Phase) (j : ℕ) (old new : Phase)
    → get_elem? ws j ≡ some old
    → total f (set ws j new) + f old ≡ total f ws + f new
total-set f [] j old new at = cc
total-set f (w ∷ ws) zero old new at = let same : w ≡ old = cc in omega (arith, ap f same)
total-set f (w ∷ ws) (suc j) old new at = omega (arith, total-set f ws j old new at)

-- The steps that a worker has before it, whether it is not gone, and the lines that it has printed.
abbrev pub todo : Phase → ℕ
todo ready = 3
todo asleep = 2
todo awake = 1
todo gone = 0

abbrev pub present : Phase → ℕ
present gone = 0
present _ = 1

abbrev pub printed : Phase → ℕ
printed ready = 0
printed asleep = 1
printed _ = 2

module _ (n : ℕ) where
  -- What holds of the place, the counter, and the number of workers.
  abbrev pub Fits : Place → ℕ → List Phase → Type 0
  Fits adding c ws = (c ≡ total present ws) × (length ws ≤ n)
  Fits spawning c ws = (c ≡ suc (total present ws)) × (length ws < n)
  Fits waiting c ws = (c ≡ total present ws) × (length ws ≡ n)
  Fits returned c ws = (0 ≡ total present ws) × (length ws ≡ n)
  Fits crashed c ws = 1 ≤ 0

  abbrev pub IsSound : State → Type 0
  IsSound s = Fits s.place s.counter s.workers × (length s.lines ≡ total printed s.workers)

  Fits-same :
      (p : Place) (c : ℕ) (ws vs : List Phase)
      → total present vs ≡ total present ws
      → length vs ≡ length ws
      → Fits p c ws
      → Fits p c vs
  Fits-same adding c ws vs e l (a, b) = (omega (arith, a, e), omega (arith, b, l))
  Fits-same spawning c ws vs e l (a, b) = (omega (arith, a, e), omega (arith, b, l))
  Fits-same waiting c ws vs e l (a, b) = (omega (arith, a, e), omega (arith, b, l))
  Fits-same returned c ws vs e l (a, b) = (omega (arith, a, e), omega (arith, b, l))
  Fits-same crashed c ws vs e l a = a

  Fits-less :
      (p : Place) (c : ℕ) (ws vs : List Phase)
      → total present vs + 1 ≡ total present ws
      → length vs ≡ length ws
      → Fits p (suc c) ws
      → Fits p c vs
  Fits-less adding c ws vs e l (a, b) = (omega (arith, a, e), omega (arith, b, l))
  Fits-less spawning c ws vs e l (a, b) = (omega (arith, a, e), omega (arith, b, l))
  Fits-less waiting c ws vs e l (a, b) = (omega (arith, a, e), omega (arith, b, l))
  Fits-less returned c ws vs e l (a, b) = absurd (omega (arith, a, e))
  Fits-less crashed c ws vs e l a = a

  -- At a counter of zero, no worker is there.
  pub Fits-empty :
      (p : Place) (ws : List Phase) (j : ℕ) → get_elem? ws j ≡ some awake → Fits p 0 ws → 1 ≤ 0
  Fits-empty adding ws j at (a, b) = omega (arith, a, total-set present ws j awake gone at)
  Fits-empty spawning ws j at (a, b) = omega (arith, a)
  Fits-empty waiting ws j at (a, b) = omega (arith, a, total-set present ws j awake gone at)
  Fits-empty returned ws j at (a, b) = omega (arith, a, total-set present ws j awake gone at)
  Fits-empty crashed ws j at a = a

  pub Step-IsSound : {s t : State} → Step n s t → IsSound s → IsSound t
  Step-IsSound (add {c} {ws} {ls} low) ((a, b), l) = ((omega (arith, a), omega (arith, low)), l)
  Step-IsSound (go {c} {ws} {ls}) ((a, b), l) =
      let present_lem = total-append present ws ready in
      let printed_lem = total-append printed ws ready in
      let length_lem = length-append ws (ready ∷ []) in
      ((omega (arith, a, present_lem), omega (arith, b, length_lem)), omega (arith, l, printed_lem))
  Step-IsSound (wait {c} {ws} {ls} full) ((a, b), l) = ((a, full), l)
  Step-IsSound (finish {ws} {ls}) ((a, b), l) = ((a, b), l)
  Step-IsSound (begin {p} {c} {ws} {ls} j at) (fits, l) = (
    Fits-same p c ws (set ws j asleep) (omega (arith, total-set present ws j ready asleep at))
        (length-set ws j asleep) fits,
    omega (
      arith,
      l,
      total-set printed ws j ready asleep at,
      length-append ls (starting (suc j) ∷ []),
    ),
  )
  Step-IsSound (end {p} {c} {ws} {ls} j at) (fits, l) = (
    Fits-same p c ws (set ws j awake) (omega (arith, total-set present ws j asleep awake at))
        (length-set ws j awake) fits,
    omega (
      arith,
      l,
      total-set printed ws j asleep awake at,
      length-append ls (finished (suc j) ∷ []),
    ),
  )
  Step-IsSound (leave {p} {c} {ws} {ls} j at) (fits, l) = (
    Fits-less p c ws (set ws j gone) (omega (arith, total-set present ws j awake gone at))
        (length-set ws j gone) fits,
    omega (arith, l, total-set printed ws j awake gone at),
  )
  Step-IsSound (over_done {p} {ws} {ls} j at) (fits, l) = (Fits-empty p ws j at fits, l)
