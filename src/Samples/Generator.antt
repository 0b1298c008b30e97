-- ===== src/Samples/Generator.antt =====
-- golang_test/context-test/simple_context.go: `ContextWithCancel`, a generator that sends numbers
-- over a channel without a buffer, and a loop that stops at a limit, which is 500 in the source.
pub mod Ends
use eth_research.Base.{
  ℕ, zero, suc, ◌+◌, ◌-◌, ◌*◌, ◌<◌, ◌≤◌, ◌≡◌, ◌≢◌, refl, ap, inl, inr, ◌⊎◌, List, [], ◌∷◌, ◌++◌,
  arith, ◌==◌, ==_iff, ◌∙◌, Bool-cases, true, false,
}

-- The goroutine at its `select`, after a send, or returned.
pub data Maker : Type 0 where
  offering sent : ℕ → Maker
  ended : Maker

-- The loop before a receive, with a number, and after `break` and after `cancel`.
pub data Reader : Type 0 where
  receiving broke cancelled : Reader
  holding : ℕ → Reader

-- The numbers that the loop has received.
pub record State : Type 0 where
  pub maker : Maker
  pub reader : Reader
  pub got : List ℕ

abbrev pub initial : State
initial = record { maker = offering 1; reader = receiving; got = [] }

module _ (limit : ℕ) where
  pub data Step : State → State → Type 0 where
    hand :
        {n : ℕ} {l : List ℕ}
        → Step
            (record { maker = offering n; reader = receiving; got = l })
            (record { maker = sent n; reader = holding n; got = l ++ (n ∷ []) })
    count :
        {n : ℕ} {r : Reader} {l : List ℕ}
        → Step
            (record { maker = sent n; reader = r; got = l })
            (record { maker = offering (n + 1); reader = r; got = l })
    again :
        {m : Maker} {n : ℕ} {l : List ℕ}
        → n ≢ limit
        → Step
            (record { maker = m; reader = holding n; got = l })
            (record { maker = m; reader = receiving; got = l })
    break_off :
        {m : Maker} {n : ℕ} {l : List ℕ}
        → n ≡ limit
        → Step
            (record { maker = m; reader = holding n; got = l })
            (record { maker = m; reader = broke; got = l })
    cancel :
        {m : Maker} {l : List ℕ}
        → Step
            (record { maker = m; reader = broke; got = l })
            (record { maker = m; reader = cancelled; got = l })
    stop :
        {n : ℕ} {l : List ℕ}
        → Step
            (record { maker = offering n; reader = cancelled; got = l })
            (record { maker = ended; reader = cancelled; got = l })

  pub data Run : ℕ → State → Type 0 where
    here : Run zero initial
    next : {k : ℕ} {s t : State} → Run k s → Step s t → Run (suc k) t
