-- ===== src/Samples/WaitGroup.antt =====
-- golang_test/syncing-test/wait-group/waitgroup.go: `WaitForWorker` and its workers, one action of
-- one of them at a time, in any order. The time a worker sleeps only delays it.
pub mod Counts
pub mod Printed
pub mod Ends
use eth_research.Base.{
  ℕ, zero, suc, ◌+◌, ◌-◌, ◌<◌, ◌≡◌, List, [], ◌∷◌, ◌++◌, some, length, get_elem?, set,
}

-- Where a worker stands: about to start, asleep, about to call `wg.Done`, or gone.
pub data Phase : Type 0 where
  ready asleep awake gone : Phase

-- Where `WaitForWorker` stands: before `wg.Add`, before `go`, in `wg.Wait`, or returned; `crashed` is
-- the panic of `wg.Done` at a counter of zero.
pub data Place : Type 0 where
  adding spawning waiting returned crashed : Place

pub data Line : Type 0 where
  starting : ℕ → Line
  finished : ℕ → Line

pub record State : Type 0 where
  pub place : Place
  pub counter : ℕ
  pub workers : List Phase
  pub lines : List Line

abbrev pub initial : State
initial = record { place = adding; counter = 0; workers = []; lines = [] }

-- The number of workers, 5 in the source, is a parameter.
module _ (n : ℕ) where
  pub data Step : State → State → Type 0 where
    add :
        {c : ℕ} {ws : List Phase} {ls : List Line}
        → length ws < n
        → Step
            (record { place = adding; counter = c; workers = ws; lines = ls })
            (record { place = spawning; counter = suc c; workers = ws; lines = ls })
    go :
        {c : ℕ} {ws : List Phase} {ls : List Line}
        → Step
            (record { place = spawning; counter = c; workers = ws; lines = ls })
            (record { place = adding; counter = c; workers = ws ++ (ready ∷ []); lines = ls })
    wait :
        {c : ℕ} {ws : List Phase} {ls : List Line}
        → length ws ≡ n
        → Step
            (record { place = adding; counter = c; workers = ws; lines = ls })
            (record { place = waiting; counter = c; workers = ws; lines = ls })
    finish :
        {ws : List Phase} {ls : List Line}
        → Step
            (record { place = waiting; counter = 0; workers = ws; lines = ls })
            (record { place = returned; counter = 0; workers = ws; lines = ls })
    begin :
        {p : Place} {c : ℕ} {ws : List Phase} {ls : List Line} (j : ℕ)
        → get_elem? ws j ≡ some ready
        → Step
            (record { place = p; counter = c; workers = ws; lines = ls })
            (record {
              place = p;
              counter = c;
              workers = set ws j asleep;
              lines = ls ++ (starting (suc j) ∷ []);
            })
    end :
        {p : Place} {c : ℕ} {ws : List Phase} {ls : List Line} (j : ℕ)
        → get_elem? ws j ≡ some asleep
        → Step
            (record { place = p; counter = c; workers = ws; lines = ls })
            (record {
              place = p;
              counter = c;
              workers = set ws j awake;
              lines = ls ++ (finished (suc j) ∷ []);
            })
    leave :
        {p : Place} {c : ℕ} {ws : List Phase} {ls : List Line} (j : ℕ)
        → get_elem? ws j ≡ some awake
        → Step
            (record { place = p; counter = suc c; workers = ws; lines = ls })
            (record { place = p; counter = c; workers = set ws j gone; lines = ls })
    over_done :
        {p : Place} {ws : List Phase} {ls : List Line} (j : ℕ)
        → get_elem? ws j ≡ some awake
        → Step
            (record { place = p; counter = 0; workers = ws; lines = ls })
            (record { place = crashed; counter = 0; workers = ws; lines = ls })

  -- A run of so many steps from the start.
  pub data Run : ℕ → State → Type 0 where
    here : Run zero initial
    next : {k : ℕ} {s t : State} → Run k s → Step s t → Run (suc k) t
