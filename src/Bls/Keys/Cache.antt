-- ===== src/Bls/Keys/Cache.antt =====
-- bls/herumi/public_key.go: what is right of a store of keys, and its allocations, copies and
-- entries of the cache.
use eth_research.Base.{
  ℕ, ◌≤◌, ◌<◌, ◌≡◌, ◌≢◌, refl, sym, ◌∙◌, inl, inr, List, [], ◌∷◌, Bool, true, false, not, none,
  some, ◌==◌, if◌then◌else◌, length, length-append, get_elem?, get_elem?-some_lt, get_elem?-append,
  get_elem?-last, arith, Bool-cases, done, Result, ok, err,
}
use eth_research.Base.Dict.{bytes_eq, bytes_beq, bytes_beq_iff, lookup, lookup-insert}
use eth_research.Bls.Herumi.{Herumi}
use eth_research.Bls.Keys.{
  KeyError, wrong_length, not_a_key, infinite_pub_key, KeyStore, Read, load, alloc, copy, cache_set,
  cache_key,
}

module _ (h : Herumi) where
  open h use {PublicKey, deserialize_public_key, public_key_is_zero, add_public_key}

  -- What the bytes of a key stand for, with no cache and no cells.
  unfoldable pub key_of : List ℕ → Result KeyError PublicKey
  key_of b = if not (length b == 48) then err wrong_length else elim (deserialize_public_key b) [
    | none ↦ err not_a_key
    | some p ↦ if public_key_is_zero p then err infinite_pub_key else ok p
  ]

  -- The sum of keys, up to the first that is none.
  unfoldable pub sum_of : PublicKey → List (List ℕ) → Result KeyError PublicKey
  sum_of p [] = ok p
  sum_of p (b ∷ rest) = elim (key_of b) [ err e ↦ err e | ok q ↦ sum_of (add_public_key p q) rest ]

  -- Every cached cell holds the key that the bytes of its entry stand for.
  abbrev pub IsValid : KeyStore h → Type 0
  IsValid s =
      (b : List ℕ) (a : ℕ)
      → lookup b s.cache ≡ some a
      → (p : PublicKey) × (get_elem? s.cells a ≡ some p) × (key_of b ≡ ok p)

  -- A cell that no entry of the cache shares.
  abbrev pub IsOwned : KeyStore h → ℕ → Type 0
  IsOwned s a = (b : List ℕ) → lookup b s.cache ≢ some a

  -- What a step on the cells leaves as it was.
  pub record After (s s' : KeyStore h) : Type 0 where
    pub valid : IsValid s'
    pub grows : length s.cells ≤ length s'.cells
    pub keeps :
        (a : ℕ) (p : PublicKey) → get_elem? s.cells a ≡ some p → get_elem? s'.cells a ≡ some p
    pub owned : (a : ℕ) → a < length s.cells → IsOwned s a → IsOwned s' a

  cached_lt :
      (s : KeyStore h) (b : List ℕ) (a : ℕ)
      → IsValid s
      → lookup b s.cache ≡ some a
      → a < length s.cells
  cached_lt s b a v e = let (p, here, of) = v b a e in get_elem?-some_lt s.cells a p here

  fresh-IsOwned : (s : KeyStore h) → IsValid s → IsOwned s (length s.cells)
  fresh-IsOwned s v b e = absurd (omega (arith, cached_lt s b (length s.cells) v e))

  pub alloc-After : (p : PublicKey) (s : KeyStore h) → IsValid s → After s (alloc h p s).1
  unfolding alloc
  alloc-After p s v = record {
    valid =
        λ b a e. let (q, here, of) = v b a e in (q, get_elem?-append s.cells (p ∷ []) a q here, of);
    grows = omega (arith, length-append s.cells (p ∷ []));
    keeps = λ a q here. get_elem?-append s.cells (p ∷ []) a q here;
    owned = λ a lt o. o;
  }

  pub alloc_holds :
      (p : PublicKey) (s : KeyStore h) → get_elem? (alloc h p s).1.cells (alloc h p s).0 ≡ some p
  unfolding alloc
  alloc_holds p s = get_elem?-last s.cells p

  pub alloc-IsOwned :
      (p : PublicKey) (s : KeyStore h) → IsValid s → IsOwned (alloc h p s).1 (alloc h p s).0
  unfolding alloc
  alloc-IsOwned p s v = fresh-IsOwned s v

  alloc_lt : (p : PublicKey) (s : KeyStore h) (a : ℕ) → a < length s.cells → a ≢ (alloc h p s).0
  unfolding alloc
  alloc_lt p s a lt e = absurd (omega arith)

  cache_set-IsValid :
      (kept : Bool) (bytes : List ℕ) (a : ℕ) (p : PublicKey) (s : KeyStore h)
      → IsValid s
      → get_elem? s.cells a ≡ some p
      → key_of bytes ≡ ok p
      → IsValid (cache_set h kept bytes a s)
  unfolding cache_set
  cache_set-IsValid false bytes a p s v here of = λ b x e. v b x e
  cache_set-IsValid true bytes a p s v here of = λ b x e. elim (Bool-cases (bytes_beq b bytes)) [
    | inl same ↦
        let eq : b ≡ bytes = (bytes_beq_iff b bytes).0 same in
        let at : x ≡ a = ground (arith, lookup-insert b bytes a s.cache) in
        (p, rw at here, rw eq of)
    | inr other ↦ v b x (sym (rw other at (lookup-insert b bytes a s.cache)) ∙ e)
  ]

  cache_set-IsOwned :
      (kept : Bool) (bytes : List ℕ) (a x : ℕ) (s : KeyStore h)
      → x ≢ a
      → IsOwned s x
      → IsOwned (cache_set h kept bytes a s) x
  unfolding cache_set
  cache_set-IsOwned false bytes a x s ne o = λ b e. o b e
  cache_set-IsOwned true bytes a x s ne o = λ b e. elim (Bool-cases (bytes_beq b bytes)) [
    | inl same ↦ ground (arith, lookup-insert b bytes a s.cache)
    | inr other ↦ o b (sym (rw other at (lookup-insert b bytes a s.cache)) ∙ e)
  ]

  cells-cache_set :
      (kept : Bool) (bytes : List ℕ) (a : ℕ) (s : KeyStore h)
      → (cache_set h kept bytes a s).cells ≡ s.cells
  unfolding cache_set
  cells-cache_set false bytes a s = refl
  cells-cache_set true bytes a s = refl

  -- How a read answers: with the error of its bytes, or with a cell of its own that holds the key.
  abbrev pub Answers : Result KeyError PublicKey → Result KeyError ℕ → KeyStore h → Type 0
  Answers (err e) res s = res ≡ err e
  Answers (ok p) res s = (a : ℕ) × (res ≡ ok a) × (get_elem? s.cells a ≡ some p) × IsOwned s a

  pub After-refl : (s : KeyStore h) → IsValid s → After s s
  After-refl s v = record {
    valid = v;
    grows = omega arith;
    keeps = λ a p e. e;
    owned = λ a lt o. o;
  }

  pub copy_lem :
      (a : ℕ) (p : PublicKey) (s : KeyStore h)
      → get_elem? s.cells a ≡ some p
      → copy h a s ≡ done (alloc h p s)
  unfolding copy load
  copy_lem a p s e = ground (arith, e)

  -- A miss, with a key that is not infinite: a new cell, and a copy of it for the cache.
  pub miss_lem :
      (r : Read h) (p : PublicKey) (s : KeyStore h)
      → IsValid s
      → public_key_is_zero p ≡ false
      → key_of r.bytes ≡ ok p
      → (res : Result KeyError ℕ) × (s' : KeyStore h) × (cache_key h r p s ≡ done (res, s'))
        × After s s'
        × Answers (ok p) res s'
  unfolding cache_key
  miss_lem r p s v nonzero of =
      let (a, s1) = alloc h p s in
      let after1 = alloc-After p s v in
      let (c, s2) = alloc h p s1 in
      let after2 = alloc-After p s1 after1.valid in
      let lt : a < length s1.cells = get_elem?-some_lt s1.cells a p (alloc_holds p s) in
      let ne : a ≢ c = alloc_lt p s1 a lt in
      let s3 = cache_set h r.kept r.bytes c s2 in
      let same_cells = cells-cache_set r.kept r.bytes c s2 in
      (
        ok a,
        s3,
        rw (nonzero, copy_lem a p s1 (alloc_holds p s)) refl,
        record {
          valid = cache_set-IsValid r.kept r.bytes c p s2 after2.valid (alloc_holds p s1) of;
          grows = rw same_cells (omega (arith, after1.grows, after2.grows));
          keeps = λ x q here. rw same_cells (after2.keeps x q (after1.keeps x q here));
          owned = λ x low o.
              cache_set-IsOwned r.kept r.bytes c x s2
                (alloc_lt p s1 x (omega (arith, after1.grows)))
                (after2.owned x (omega (arith, after1.grows)) (after1.owned x low o));
        },
        (
          a,
          refl,
          rw same_cells (after2.keeps a p (alloc_holds p s)),
          cache_set-IsOwned r.kept r.bytes c a s2 ne (after2.owned a lt (alloc-IsOwned p s v)),
        ),
      )
