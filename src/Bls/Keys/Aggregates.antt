-- ===== src/Bls/Keys/Aggregates.antt =====
-- bls/herumi/public_key.go: a sum of keys, made in place in the cell of the first one.
use mathlib.Core.Path.{subst}
use eth_research.Base.{
  ℕ, ◌<◌, ◌≡◌, ◌≢◌, refl, sym, ap, ◌∙◌, inl, inr, List, [], ◌∷◌, Option, none, some, length,
  get_elem?, get_elem?-some_lt, get_elem?-set_self, get_elem?-set_ne, set, map, arith, done, Result,
  Result-cases, ok, err,
}
use eth_research.Base.Dict.{bytes_eq}
use eth_research.Bls.Herumi.{Herumi}
use eth_research.Bls.Keys.{
  KeyError, KeyStore, Read, load, aggregate, aggregate_rest, aggregate_public_keys,
}
use eth_research.Bls.Keys.Cache.{key_of, sum_of, IsValid, IsOwned}
use eth_research.Bls.Keys.Reads.{public_key_from_bytes_lem}

module _ (h : Herumi) where
  open h use {PublicKey, add_public_key}

  -- What a sum answers: `p` is the sum in a cell, or the error.
  abbrev Sums : Result KeyError PublicKey → Result KeyError (Option ℕ) → KeyStore h → Type 0
  Sums (err e) res s = res ≡ err e
  Sums (ok p) res s = (a : ℕ) × (res ≡ ok (some a)) × (get_elem? s.cells a ≡ some p)

  aggregate_lem :
      (a a2 : ℕ) (p q : PublicKey) (s : KeyStore h)
      → get_elem? s.cells a ≡ some p
      → get_elem? s.cells a2 ≡ some q
      → aggregate h a a2 s ≡ done (record s { cells = set s.cells a (add_public_key p q) })
  unfolding aggregate load
  aggregate_lem a a2 p q s e e2 = ground (arith, e, e2)

  -- A sum goes to a cell that the cache does not share.
  set-IsValid :
      (a : ℕ) (p : PublicKey) (s : KeyStore h)
      → IsValid h s
      → IsOwned h s a
      → IsValid h (record s { cells = set s.cells a p })
  set-IsValid a p s v o = λ b x e.
      let (q, here, of) = v b x e in
      let other : x ≢ a = λ same. o b (e ∙ ap some same) in
      (q, get_elem?-set_ne s.cells a x p (λ same. other (sym same)) ∙ here, of)

  sum_of_more :
      (p q : PublicKey) (b : List ℕ) (rest : List (List ℕ))
      → key_of h b ≡ ok q
      → sum_of h p (b ∷ rest) ≡ sum_of h (add_public_key p q) rest
  unfolding sum_of
  sum_of_more p q b rest e = rw (sum_of, e) refl

  aggregate_rest_lem :
      (rs : List (Read h)) (a : ℕ) (p : PublicKey) (s : KeyStore h)
      → IsValid h s
      → IsOwned h s a
      → get_elem? s.cells a ≡ some p
      → (res : Result KeyError (Option ℕ)) × (s' : KeyStore h) × (aggregate_rest h a rs s
          ≡ done (res, s'))
        × IsValid h s'
        × Sums (sum_of h p (map (λ r. r.bytes) rs)) res s'
  unfolding aggregate_rest sum_of
  aggregate_rest_lem [] a p s v o here = (ok (some a), s, refl, v, (a, refl, here))
  aggregate_rest_lem (r ∷ rs) a p s v o here =
      let (key, s1, read, after, answer) = public_key_from_bytes_lem h r s v in
      elim (Result-cases (key_of h r.bytes)) [
        | inl (e, bad) ↦
            let failed : key ≡ err e = rw bad at answer in
            (err e, s1, rw (read, failed) refl, after.valid, rw (Sums, bad) refl)
        | inr (q, good) ↦
            let (a2, is, here2, o2) = rw good at answer in
            let lt : a < length s.cells = get_elem?-some_lt s.cells a p here in
            let here1 = after.keeps a p here in
            let sum = add_public_key p q in
            let s2 : KeyStore h = record s1 { cells = set s1.cells a sum } in
            let (res, s', e, v', sums) =
              aggregate_rest_lem rs a sum s2 (set-IsValid a sum s1 after.valid (after.owned a lt o))
                (after.owned a lt o)
                (get_elem?-set_self s1.cells a sum (omega (arith, after.grows))) in
            let added = aggregate_lem a a2 p q s1 here1 here2 in
            let total = sum_of_more p q r.bytes (map (λ r. r.bytes) rs) good in
            (res, s', rw (read, is, added) e, v', subst (λ k. Sums k res s') (sym total) sums)
      ]

  -- What the sum of all keys is: of no keys at all, no key.
  unfoldable pub sum_all : List (List ℕ) → Result KeyError (Option PublicKey)
  sum_all [] = ok none
  sum_all (b ∷ rest) = elim (key_of h b) [
    | err e ↦ err e
    | ok p ↦ elim (sum_of h p rest) [ err e ↦ err e | ok q ↦ ok (some q) ]
  ]

  sum_all_more :
      (p : PublicKey) (b : List ℕ) (rest : List (List ℕ))
      → key_of h b ≡ ok p
      → sum_all (b ∷ rest) ≡ elim (sum_of h p rest) [ err e ↦ err e | ok q ↦ ok (some q) ]
  unfolding sum_all
  sum_all_more p b rest e = rw (sum_all, e) refl

  -- A key of the result: `none` points nowhere, and a cell holds the key.
  abbrev pub Holds :
      Result KeyError (Option PublicKey) → Result KeyError (Option ℕ) → KeyStore h → Type 0
  Holds (err e) res s = res ≡ err e
  Holds (ok none) res s = res ≡ ok none
  Holds (ok (some p)) res s = (a : ℕ) × (res ≡ ok (some a)) × (get_elem? s.cells a ≡ some p)

  Sums-Holds :
      (k : Result KeyError PublicKey) (res : Result KeyError (Option ℕ)) (s : KeyStore h)
      → Sums k res s
      → Holds (elim k [ err e ↦ err e | ok q ↦ ok (some q) ]) res s
  Sums-Holds (err e) res s x = x
  Sums-Holds (ok p) res s x = x

  -- From a store whose cache is right, `AggregatePublicKeys` does not panic, leaves the cache right
  -- whatever the cache kept or dropped, and returns the sum of the keys that the bytes stand for,
  -- in a cell: or the error of the first bytes that stand for none, and for no bytes at all a key
  -- that points nowhere.
  pub aggregate_public_keys_lem :
      (rs : List (Read h)) (s : KeyStore h)
      → IsValid h s
      → (res : Result KeyError (Option ℕ)) × (s' : KeyStore h) × (aggregate_public_keys h rs s
          ≡ done (res, s'))
        × IsValid h s'
        × Holds (sum_all (map (λ r. r.bytes) rs)) res s'
  unfolding aggregate_public_keys sum_all
  aggregate_public_keys_lem [] s v = (ok none, s, refl, v, refl)
  aggregate_public_keys_lem (r ∷ rs) s v =
      let (key, s1, read, after, answer) = public_key_from_bytes_lem h r s v in
      elim (Result-cases (key_of h r.bytes)) [
        | inl (e, bad) ↦
            let failed : key ≡ err e = rw bad at answer in
            (err e, s1, rw (read, failed) refl, after.valid, rw (Holds, bad) refl)
        | inr (p, good) ↦
            let (a, is, here, o) = rw good at answer in
            let (res, s', e, v', sums) = aggregate_rest_lem rs a p s1 after.valid o here in
            let total = sum_all_more p r.bytes (map (λ r. r.bytes) rs) good in
            let held = Sums-Holds (sum_of h p (map (λ r. r.bytes) rs)) res s' sums in
            (res, s', rw (read, is) e, v', subst (λ k. Holds k res s') (sym total) held)
      ]
