-- ===== src/Samples/WaitGroup/Printed.antt =====
-- golang_test/syncing-test/wait-group/waitgroup.go: which lines the workers have printed.
use eth_research.Base.{
  ℕ, zero, suc, ◌+◌, ◌≡◌, ◌≢◌, refl, sym, ap, ◌∙◌, inl, inr, List, [], ◌∷◌, ◌++◌, Bool, false,
  Option, none, some, ◌==◌, if◌then◌else◌, get_elem?, get_elem?-some_lt, get_elem?-set_self,
  get_elem?-set_ne, set, arith, Bool-cases,
}
use eth_research.Samples.WaitGroup.{
  Phase, ready, asleep, awake, gone, State, Line, Step, Run, starting, finished, here, next, add,
  go, wait, finish, begin, end, leave, over_done,
}

abbrev pub is_line : Line → Line → Bool
is_line (starting i) (starting j) = i == j
is_line (finished i) (finished j) = i == j
is_line _ _ = false

-- How often a line has been printed.
abbrev pub occurs : Line → List Line → ℕ
occurs l [] = 0
occurs l (m ∷ ls) = (if is_line l m then 1 else 0) + occurs l ls

occurs-append :
    (l : Line) (ls : List Line) (m : Line)
    → occurs l (ls ++ (m ∷ [])) ≡ occurs l ls + (if is_line l m then 1 else 0)
occurs-append l [] m = omega arith
occurs-append l (k ∷ ls) m = omega (arith, occurs-append l ls m)

-- How often a worker has printed its two lines.
abbrev pub begun : Option Phase → ℕ
begun none = 0
begun (some ready) = 0
begun (some _) = 1

abbrev pub ended : Option Phase → ℕ
ended none = 0
ended (some ready) = 0
ended (some asleep) = 0
ended (some _) = 1

abbrev pub HasPrinted : List Phase → List Line → Type 0
HasPrinted ws ls =
    (j : ℕ)
    → (occurs (starting (suc j)) ls ≡ begun (get_elem? ws j))
      × (occurs (finished (suc j)) ls ≡ ended (get_elem? ws j))

one_more :
    (ws : List Phase) (j : ℕ)
    → (begun (get_elem? (ws ++ (ready ∷ [])) j) ≡ begun (get_elem? ws j))
      × (ended (get_elem? (ws ++ (ready ∷ [])) j) ≡ ended (get_elem? ws j))
one_more [] zero = (refl, refl)
one_more [] (suc j) = (refl, refl)
one_more (w ∷ ws) zero = (refl, refl)
one_more (w ∷ ws) (suc j) = one_more ws j

set_lem :
    (f : Option Phase → ℕ) (ws : List Phase) (j i : ℕ) (old new : Phase)
    → get_elem? ws j ≡ some old
    → f (get_elem? (set ws j new) i) + (if i == j then f (some old) else 0)
      ≡ f (get_elem? ws i) + (if i == j then f (some new) else 0)
set_lem f ws j i old new at = elim (Bool-cases (i == j)) [
  | inl same ↦
      let eq : i ≡ j = ground (arith, same) in
      let there : get_elem? ws i ≡ some old = rw eq at in
      let now : get_elem? (set ws j new) i ≡ some new =
        rw eq (get_elem?-set_self ws j new (get_elem?-some_lt ws j old at)) in
      rw (same, there, now) (omega arith)
  | inr other ↦
      let ne : j ≢ i = λ e. ground (arith, other) in
      let kept = get_elem?-set_ne ws j i new ne in rw (other, kept) refl
]

module _ (n : ℕ) where
  Step-HasPrinted :
      {s t : State} → Step n s t → HasPrinted s.workers s.lines → HasPrinted t.workers t.lines
  Step-HasPrinted (add low) p = p
  Step-HasPrinted (go {ws} {ls}) p =
      λ i. let (b, e) = one_more ws i in ((p i).0 ∙ sym b, (p i).1 ∙ sym e)
  Step-HasPrinted (wait full) p = p
  Step-HasPrinted finish p = p
  Step-HasPrinted (begin {ws} {ls} j at) p = λ i.
      let (b, e) = p i in
      (
        ground (
          arith,
          b,
          occurs-append (starting (suc i)) ls (starting (suc j)),
          set_lem begun ws j i ready asleep at,
        ),
        ground (
          arith,
          e,
          occurs-append (finished (suc i)) ls (starting (suc j)),
          set_lem ended ws j i ready asleep at,
        ),
      )
  Step-HasPrinted (end {ws} {ls} j at) p = λ i.
      let (b, e) = p i in
      (
        ground (
          arith,
          b,
          occurs-append (starting (suc i)) ls (finished (suc j)),
          set_lem begun ws j i asleep awake at,
        ),
        ground (
          arith,
          e,
          occurs-append (finished (suc i)) ls (finished (suc j)),
          set_lem ended ws j i asleep awake at,
        ),
      )
  Step-HasPrinted (leave {ws} {ls} j at) p = λ i.
      let (b, e) = p i in
      (
        omega (arith, b, set_lem begun ws j i awake gone at),
        omega (arith, e, set_lem ended ws j i awake gone at),
      )
  Step-HasPrinted (over_done j at) p = p

  pub Run-HasPrinted : {k : ℕ} {s : State} → Run n k s → HasPrinted s.workers s.lines
  Run-HasPrinted here = λ j. (refl, refl)
  Run-HasPrinted (next r st) = Step-HasPrinted st (Run-HasPrinted r)

  -- A worker that is gone has printed each of its lines once.
  pub gone_lines :
      (ws : List Phase) (ls : List Line) (j : ℕ)
      → HasPrinted ws ls
      → get_elem? ws j ≡ some gone
      → (occurs (starting (suc j)) ls ≡ 1) × (occurs (finished (suc j)) ls ≡ 1)
  gone_lines ws ls j p at = ((p j).0 ∙ ap begun at, (p j).1 ∙ ap ended at)
