-- ===== src/Samples/Generator/Ends.antt =====
-- golang_test/context-test/simple_context.go: the generator ends after the limit.
use eth_research.Base.{
  ℕ, zero, suc, ◌+◌, ◌-◌, ◌*◌, ◌<◌, ◌≤◌, ◌≡◌, ◌≢◌, refl, ap, inl, inr, ◌⊎◌, List, [], ◌∷◌, ◌++◌,
  arith, ◌==◌, ==_iff, ◌∙◌, Bool-cases,
}
use eth_research.Samples.Generator.{
  Maker, offering, sent, ended, Reader, receiving, broke, cancelled, holding, State, Step, hand,
  count, again, break_off, cancel, stop, Run, here, next,
}

-- The numbers from 1 to n.
abbrev pub up_to : ℕ → List ℕ
up_to zero = []
up_to (suc n) = up_to n ++ (suc n ∷ [])

module _ (limit : ℕ) where
  -- What holds of the maker and the reader with `k` steps left, and how many numbers came.
  abbrev Fits : Maker → Reader → ℕ → ℕ → Type 0
  Fits (offering n) receiving k c = (n ≡ c + 1) × (n ≤ limit) × (k ≡ 3 * (limit - c) + 2)
  Fits (sent n) (holding m) k c = (n ≡ c) × (m ≡ c) × (n ≤ limit) × (k ≡ 3 * (limit - c) + 4)
  Fits (offering n) (holding m) k c =
      (n ≡ c + 1) × (m ≡ c) × (c ≤ limit) × (k ≡ 3 * (limit - c) + 3)
  Fits (sent n) receiving k c = (n ≡ c) × (c < limit) × (k ≡ 3 * (limit - c) + 3)
  Fits (sent n) broke k c = (c ≡ limit) × (k ≡ 3)
  Fits (offering n) broke k c = (c ≡ limit) × (k ≡ 2)
  Fits (sent n) cancelled k c = (c ≡ limit) × (k ≡ 2)
  Fits (offering n) cancelled k c = (c ≡ limit) × (k ≡ 1)
  Fits ended cancelled k c = (c ≡ limit) × (k ≡ 0)
  Fits ended receiving k c = 1 ≤ 0
  Fits ended broke k c = 1 ≤ 0
  Fits ended (holding m) k c = 1 ≤ 0

  abbrev Fine : ℕ → State → Type 0
  Fine k s = (c : ℕ) × ((s.got ≡ up_to c) × Fits s.maker s.reader k c)

  below : (c n : ℕ) → n ≢ limit → n ≡ c → c ≤ limit → c < limit
  below c n apart is low = elim (Bool-cases (n == limit)) [
    | inl same ↦ absurd (apart ((==_iff n limit).0 same))
    | inr other ↦ ground (arith, other, is, low)
  ]

  Step-Fine : {s t : State} (k : ℕ) → Step limit s t → Fine (suc k) s → Fine k t
  Step-Fine k (hand {n = n}) (c, (g, (a, b, e))) =
      let is : n ≡ suc c = omega (arith, a) in
      (
        suc c,
        (
          ap (λ (xs : List ℕ). xs ++ (n ∷ [])) g ∙ ap (λ (x : ℕ). up_to c ++ (x ∷ [])) is,
          (is, is, b, omega (arith, a, b, e)),
        ),
      )
  Step-Fine k (count {r = receiving}) (c, (g, (a, b, e))) =
      (c, (g, (omega (arith, a), omega (arith, a, b), omega (arith, e))))
  Step-Fine k (count {r = holding m}) (c, (g, (a, b, low, e))) =
      (c, (g, (omega (arith, a), b, omega (arith, a, low), omega (arith, e))))
  Step-Fine k (count {r = broke}) (c, (g, (a, e))) = (c, (g, (a, omega (arith, e))))
  Step-Fine k (count {r = cancelled}) (c, (g, (a, e))) = (c, (g, (a, omega (arith, e))))
  Step-Fine k (again {m = sent i} {n = n} apart) (c, (g, (a, b, low, e))) =
      (c, (g, (a, below c n apart b (omega (arith, a, low)), omega (arith, e))))
  Step-Fine k (again {m = offering i} {n = n} apart) (c, (g, (a, b, low, e))) =
      let lt = below c n apart b low in (c, (g, (a, omega (arith, a, lt), omega (arith, e))))
  Step-Fine k (again {m = ended} {n = n} apart) (c, (g, f)) = absurd (omega (arith, f))
  Step-Fine k (break_off {m = sent i} at) (c, (g, (a, b, low, e))) =
      (c, (g, (omega (arith, b, at), omega (arith, b, at, e))))
  Step-Fine k (break_off {m = offering i} at) (c, (g, (a, b, low, e))) =
      (c, (g, (omega (arith, b, at), omega (arith, b, at, e))))
  Step-Fine k (break_off {m = ended} at) (c, (g, f)) = absurd (omega (arith, f))
  Step-Fine k (cancel {m = sent i}) (c, (g, (a, e))) = (c, (g, (a, omega (arith, e))))
  Step-Fine k (cancel {m = offering i}) (c, (g, (a, e))) = (c, (g, (a, omega (arith, e))))
  Step-Fine k (cancel {m = ended}) (c, (g, f)) = absurd (omega (arith, f))
  Step-Fine k stop (c, (g, (a, e))) = (c, (g, (a, omega (arith, e))))

  holding_goes :
      (m : Maker) (n : ℕ) (l : List ℕ)
      → (t : State) × Step limit (record { maker = m; reader = holding n; got = l }) t
  holding_goes m n l = elim (Bool-cases (n == limit)) [
    | inl same ↦ (_, break_off ((==_iff n limit).0 same))
    | inr other ↦ (_, again (λ e. absurd (ground (arith, other, e))))
  ]

  -- A state that is not the last one can go on.
  goes_on :
      (m : Maker) (r : Reader) (l : List ℕ) (k c : ℕ)
      → Fits m r k c
      → ((m ≡ ended) × (c ≡ limit) × (k ≡ 0))
        ⊎ ((0 < k) × ((t : State) × Step limit (record { maker = m; reader = r; got = l }) t))
  goes_on (offering n) receiving l k c (a, b, e) = inr (omega (arith, e), (_, hand))
  goes_on (sent n) receiving l k c (a, b, e) = inr (omega (arith, e), (_, count))
  goes_on ended receiving l k c f = absurd (omega (arith, f))
  goes_on (offering n) (holding m) l k c (a, b, low, e) =
      inr (omega (arith, e), holding_goes (offering n) m l)
  goes_on (sent n) (holding m) l k c (a, b, low, e) = inr (omega (arith, e), (_, count))
  goes_on ended (holding m) l k c f = absurd (omega (arith, f))
  goes_on (offering n) broke l k c (a, e) = inr (omega (arith, e), (_, cancel))
  goes_on (sent n) broke l k c (a, e) = inr (omega (arith, e), (_, count))
  goes_on ended broke l k c f = absurd (omega (arith, f))
  goes_on (offering n) cancelled l k c (a, e) = inr (omega (arith, e), (_, stop))
  goes_on (sent n) cancelled l k c (a, e) = inr (omega (arith, e), (_, count))
  goes_on ended cancelled l k c (a, e) = inl (refl, a, e)

  Step-positive : {s t : State} (k : ℕ) → Step limit s t → Fine k s → 0 < k
  Step-positive k hand (c, (g, (a, b, e))) = omega (arith, e)
  Step-positive k (count {r = receiving}) (c, (g, (a, b, e))) = omega (arith, e)
  Step-positive k (count {r = holding m}) (c, (g, (a, b, low, e))) = omega (arith, e)
  Step-positive k (count {r = broke}) (c, (g, (a, e))) = omega (arith, e)
  Step-positive k (count {r = cancelled}) (c, (g, (a, e))) = omega (arith, e)
  Step-positive k (again {m = sent i} apart) (c, (g, (a, b, low, e))) = omega (arith, e)
  Step-positive k (again {m = offering i} apart) (c, (g, (a, b, low, e))) = omega (arith, e)
  Step-positive k (again {m = ended} apart) (c, (g, f)) = absurd (omega (arith, f))
  Step-positive k (break_off {m = sent i} at) (c, (g, (a, b, low, e))) = omega (arith, e)
  Step-positive k (break_off {m = offering i} at) (c, (g, (a, b, low, e))) = omega (arith, e)
  Step-positive k (break_off {m = ended} at) (c, (g, f)) = absurd (omega (arith, f))
  Step-positive k (cancel {m = sent i}) (c, (g, (a, e))) = omega (arith, e)
  Step-positive k (cancel {m = offering i}) (c, (g, (a, e))) = omega (arith, e)
  Step-positive k (cancel {m = ended}) (c, (g, f)) = absurd (omega (arith, f))
  Step-positive k stop (c, (g, (a, e))) = omega (arith, e)

  one_more :
      {s t : State} (k : ℕ)
      → (left : ℕ) × ((k + left ≡ 3 * limit + 2) × Fine left s)
      → Step limit s t
      → (left : ℕ) × ((suc k + left ≡ 3 * limit + 2) × Fine left t)
  one_more k (zero, (e, fine)) st = absurd (omega (arith, Step-positive 0 st fine))
  one_more k (suc left, (e, fine)) st = (left, (omega (arith, e), Step-Fine left st fine))

  Run-Fine :
      {k : ℕ} {s : State}
      → 0 < limit
      → Run limit k s
      → (left : ℕ) × ((k + left ≡ 3 * limit + 2) × Fine left s)
  Run-Fine some_left here =
      (3 * limit + 2, (omega arith, (0, (refl, (refl, omega (arith, some_left), omega arith)))))
  Run-Fine some_left (next {k = k} r st) = one_more k (Run-Fine some_left r) st

  -- Of `ContextWithCancel` with a limit above zero, whatever the order in which the two act: no run
  -- has more than 3 limit + 2 steps, one whose generator has returned has them all and has received the
  -- numbers from 1 to the limit in order, and every other run can go on.
  pub cancelled_lem :
      (k : ℕ) (s : State)
      → 0 < limit
      → Run limit k s
      → ((s.maker ≡ ended) × (k ≡ 3 * limit + 2) × (s.got ≡ up_to limit))
        ⊎ ((k < 3 * limit + 2) × ((t : State) × Step limit s t))
  cancelled_lem k s some_left r =
      let (left, (e, (c, (g, f)))) = Run-Fine some_left r in
      elim (goes_on s.maker s.reader s.got left c f) [
        | inl (over, all, none_left) ↦ inl (over, omega (arith, e, none_left), g ∙ ap up_to all)
        | inr (positive, step) ↦ inr (omega (arith, e, positive), step)
      ]
