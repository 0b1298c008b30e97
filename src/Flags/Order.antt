-- ===== src/Flags/Order.antt =====
-- simple_rpc/utils/helpers.go: the order of `ByCategory`.
use eth_research.Base.{
  ℕ, zero, suc, ◌+◌, ◌≡◌, ◌≢◌, refl, sym, ap, ◌∙◌, inl, inr, List, [], ◌∷◌, true, some, ltb, length,
  get_elem?, arith, Bool-cases, done,
}
use eth_research.Base.Text.{String, str_eq, str_eq_iff}
use eth_research.Flags.{FlagGroup, last_index, less}

last_index_none :
    (name : String) (k : ℕ) (xs : List FlagGroup) (found : ℕ)
    → ((j : ℕ) (x : FlagGroup) → get_elem? xs j ≡ some x → name ≢ x.name)
    → last_index name k xs found ≡ found
unfolding last_index
last_index_none name k [] found others = refl
last_index_none name k (x ∷ xs) found others =
    let rest = last_index_none name (suc k) xs found (λ j y e. others (suc j) y e) in
    elim (Bool-cases (str_eq name x.name)) [
      | inl same ↦ absurd (others 0 x refl ((str_eq_iff name x.name).0 same))
      | inr other ↦ rw other rest
    ]

-- A group whose name no other one has is found at its index.
last_index_lem :
    (xs : List FlagGroup) (k i : ℕ) (g : FlagGroup) (found : ℕ)
    → get_elem? xs i ≡ some g
    → ((j : ℕ) (x : FlagGroup) → get_elem? xs j ≡ some x → g.name ≡ x.name → j ≡ i)
    → last_index g.name k xs found ≡ k + i
unfolding last_index
last_index_lem [] k i g found e alone = cc
last_index_lem (x ∷ xs) k zero g found e alone =
    let others : (j : ℕ) (y : FlagGroup) → get_elem? xs j ≡ some y → g.name ≢ y.name =
      λ j y at same. absurd (omega (arith, alone (suc j) y at same)) in
    let is : x ≡ g = cc in
    let eq : str_eq g.name x.name ≡ true =
      (str_eq_iff g.name x.name).1 (ap (λ (y : FlagGroup). y.name) (sym is)) in
    rw eq (last_index_none g.name (suc k) xs k others ∙ omega arith)
last_index_lem (x ∷ xs) k (suc i) g found e alone = elim (Bool-cases (str_eq g.name x.name)) [
  | inl same ↦ absurd (omega (arith, alone 0 x refl ((str_eq_iff g.name x.name).0 same)))
  | inr other ↦ rw other (
      last_index_lem xs (suc k) i g found e (λ j y at same. omega (arith, alone (suc j) y at same))
      ∙ omega arith)
]

-- Where no two groups have the same name, `Less` compares the two indices: it orders the groups as
-- they stand, and never panics at indices of the list.
pub less_lem :
    (a : List FlagGroup) (i j : ℕ) (g k : FlagGroup)
    → ((i j : ℕ) (x y : FlagGroup)
        → get_elem? a i ≡ some x
        → get_elem? a j ≡ some y
        → x.name ≡ y.name
        → j ≡ i)
    → get_elem? a i ≡ some g
    → get_elem? a j ≡ some k
    → less a i j ≡ done (ltb i j)
unfolding less
less_lem a i j g k distinct gi kj =
    let first : last_index g.name 0 a (length a) ≡ i =
      last_index_lem a 0 i g (length a) gi (λ m x at same. distinct i m g x gi at same)
      ∙ omega arith in
    let second : last_index k.name 0 a (length a) ≡ j =
      last_index_lem a 0 j k (length a) kj (λ m x at same. distinct j m k x kj at same)
      ∙ omega arith in
    rw (less, gi, kj, first, second) refl
