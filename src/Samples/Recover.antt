-- ===== src/Samples/Recover.antt =====
-- golang_test/control-flow/DeferPanicRecover.go: `g`, which panics below four deferred calls, and
-- `f`, which recovers. `g` calls itself and takes fuel.
use eth_research.Base.{
  ℕ, zero, suc, ◌+◌, ◌<◌, ◌≡◌, refl, ap, ◌∙◌, List, [], ◌∷◌, ◌++◌, append_assoc, true, false,
  if◌then◌else◌, ltb, arith, max,
}

pub data Line : Type 0 where
  calling printed_panic returned_from_g returned_from_f : Line
  printing : ℕ → Line
  deferred : ℕ → Line
  recovered : ℕ → Line

-- How a call ends: `panicked i` is the panic with the text of i.
pub data Ending : Type 0 where
  returns out_of_fuel : Ending
  panicked : ℕ → Ending

-- A deferred print runs however the call ends.
abbrev deferring : ℕ → List Line × Ending → List Line × Ending
deferring i (lines, ending) = (printing i ∷ (lines ++ (deferred i ∷ [])), ending)

unfoldable pub g : ℕ → ℕ → List Line × Ending
g zero i = ([], out_of_fuel)
g (suc fuel) i =
    let rest = deferring i (g fuel (i + 1)) in
    if ltb 3 i then (printed_panic ∷ [], panicked i) else rest

-- The deferred function of `f`, which recovers from a panic.
abbrev recovering : List Line × Ending → List Line × Ending
recovering (lines, panicked i) = (lines ++ (recovered i ∷ []), returns)
recovering (lines, returns) = (lines ++ (returned_from_g ∷ []), returns)
recovering (lines, out_of_fuel) = (lines, out_of_fuel)

abbrev called : List Line × Ending → List Line × Ending
called (lines, ending) = (calling ∷ lines, ending)

unfoldable pub f : ℕ → List Line × Ending
f fuel = recovering (called (g fuel 0))

-- `main`, after `f`.
abbrev after_f : List Line × Ending → List Line × Ending
after_f (lines, returns) = (lines ++ (returned_from_f ∷ []), returns)
after_f (lines, ending) = (lines, ending)

unfoldable pub run_f : ℕ → List Line × Ending
run_f fuel = after_f (f fuel)

-- The prints of `g i` up to a depth, and the deferred ones in the reverse order.
unfoldable pub down : ℕ → ℕ → List Line
down zero i = []
down (suc n) i = printing i ∷ down n (i + 1)

unfoldable pub up : ℕ → ℕ → List Line
up zero i = []
up (suc n) i = up n (i + 1) ++ (deferred i ∷ [])

deferring-lines :
    (i : ℕ) (before after : List Line) (r : List Line × Ending) (ending : Ending)
    → r ≡ (before ++ (printed_panic ∷ after), ending)
    → deferring i r
      ≡ ((printing i ∷ before) ++ (printed_panic ∷ (after ++ (deferred i ∷ []))), ending)
deferring-lines i before after r ending e =
    ap (deferring i) e
    ∙ ap (λ (l : List Line). (printing i ∷ l, ending))
        (append_assoc before (printed_panic ∷ after) (deferred i ∷ []))

-- With more fuel than calls are left, `g` from i on prints i up to 3, then panics with 4, or with i
-- where that is greater, and on the way out prints the deferred lines of 3 down to i.
pub g_lem :
    (fuel n i : ℕ)
    → n < fuel
    → n + i ≡ max 4 i
    → g fuel i ≡ (down n i ++ (printed_panic ∷ up n i), panicked (max 4 i))
unfolding g down up
g_lem zero n i low e = absurd (omega arith)
g_lem (suc fuel) zero i low e =
    let past : ltb 3 i ≡ true = ground (arith, e) in
    let at : i ≡ max 4 i = omega (arith, e) in
    rw (g, past) (ap (λ (k : ℕ). (printed_panic ∷ [], panicked k)) at)
g_lem (suc fuel) (suc n) i low e =
    let below : ltb 3 i ≡ false = ground (arith, e) in
    let same : max 4 (i + 1) ≡ max 4 i = omega (arith, e) in
    let rest = g_lem fuel n (i + 1) (omega arith) (omega (arith, e)) in
    let lines = down n (i + 1) ++ (printed_panic ∷ up n (i + 1)) in
    rw (g, below)
      (deferring-lines i (down n (i + 1)) (up n (i + 1)) (g fuel (i + 1)) (panicked (max 4 i))
        (rest ∙ ap (λ (k : ℕ). (lines, panicked k)) same))

-- `f` ends in the same way: with five calls of fuel or more, `main` recovers from the panic with 4,
-- never prints that `g` has returned, and returns.
pub run_f_lem :
    (fuel : ℕ)
    → 4 < fuel
    → run_f fuel ≡ (
      (calling ∷ (down 4 0 ++ (printed_panic ∷ up 4 0))) ++ (recovered 4 ∷ returned_from_f ∷ []),
      returns,
    )
unfolding run_f f down up
run_f_lem fuel low =
    let inner : g fuel 0 ≡ (down 4 0 ++ (printed_panic ∷ up 4 0), panicked 4) =
      g_lem fuel 4 0 low refl in
    ap (λ (r : List Line × Ending). after_f (recovering (called r))) inner
