-- ===== src/Bls/Keys/Reads.antt =====
-- bls/herumi/public_key.go: every branch of `PublicKeyFromBytes`, and what it answers.
use eth_research.Base.{
  ℕ, ◌≡◌, refl, ◌∙◌, inl, inr, List, Bool, true, false, none, some, ◌==◌, length, get_elem?, arith,
  Bool-cases, Option-cases, done, Result, ok, err,
}
use eth_research.Base.Dict.{bytes_eq, lookup}
use eth_research.Bls.Herumi.{Herumi}
use eth_research.Bls.Keys.{
  KeyError, wrong_length, not_a_key, infinite_pub_key, KeyStore, Read, alloc, cache_get, cache_key,
  public_key_from_bytes,
}
use eth_research.Bls.Keys.Cache.{
  key_of, IsValid, After, Answers, alloc-After, alloc_holds, alloc-IsOwned, After-refl, copy_lem,
  miss_lem,
}

module _ (h : Herumi) where
  open h use {PublicKey, deserialize_public_key, public_key_is_zero}

  -- The branches of `PublicKeyFromBytes`, and those of what the bytes stand for.
  module _ (r : Read h) (s : KeyStore h) where
    read_short :
        (length r.bytes == 48) ≡ false → public_key_from_bytes h r s ≡ done (err wrong_length, s)
    unfolding public_key_from_bytes
    read_short e = rw e

    read_hit :
        (c : ℕ) (p : PublicKey)
        → (length r.bytes == 48) ≡ true
        → cache_get h r.hit r.bytes s ≡ some c
        → get_elem? s.cells c ≡ some p
        → public_key_from_bytes h r s ≡ done (ok (alloc h p s).0, (alloc h p s).1)
    unfolding public_key_from_bytes
    read_hit c p long found here = ground (arith, copy_lem h c p s here)

    read_bad :
        (length r.bytes == 48) ≡ true
        → cache_get h r.hit r.bytes s ≡ none
        → deserialize_public_key r.bytes ≡ none
        → public_key_from_bytes h r s ≡ done (err not_a_key, s)
    unfolding public_key_from_bytes
    read_bad long missed bad = ground arith

    read_miss :
        (p : PublicKey)
        → (length r.bytes == 48) ≡ true
        → cache_get h r.hit r.bytes s ≡ none
        → deserialize_public_key r.bytes ≡ some p
        → public_key_from_bytes h r s ≡ cache_key h r p s
    unfolding public_key_from_bytes
    read_miss p long missed good = ground arith

    cache_key_zero :
        (p : PublicKey)
        → public_key_is_zero p ≡ true
        → cache_key h r p s ≡ done (err infinite_pub_key, (alloc h p s).1)
    unfolding cache_key
    cache_key_zero p e = rw e

  cache_get_found :
      (hit : Bool) (b : List ℕ) (s : KeyStore h) {a : ℕ}
      → cache_get h hit b s ≡ some a
      → lookup b s.cache ≡ some a
  unfolding cache_get
  cache_get_found true b s e = e
  cache_get_found false b s e = cc

  module _ (b : List ℕ) where
    key_of_short : (length b == 48) ≡ false → key_of h b ≡ err wrong_length
    unfolding key_of
    key_of_short e = rw e

    key_of_bad :
        (length b == 48) ≡ true → deserialize_public_key b ≡ none → key_of h b ≡ err not_a_key
    unfolding key_of
    key_of_bad long bad = ground arith

    key_of_zero :
        (p : PublicKey)
        → (length b == 48) ≡ true
        → deserialize_public_key b ≡ some p
        → public_key_is_zero p ≡ true
        → key_of h b ≡ err infinite_pub_key
    unfolding key_of
    key_of_zero p long good e = ground arith

    pub key_of_good :
        (p : PublicKey)
        → (length b == 48) ≡ true
        → deserialize_public_key b ≡ some p
        → public_key_is_zero p ≡ false
        → key_of h b ≡ ok p
    unfolding key_of
    key_of_good p long good e = ground arith

  -- From a store whose cache is right, `PublicKeyFromBytes` does not panic, leaves the cache right
  -- and every cell as it was, whatever the cache kept or dropped, and returns the error of the bytes,
  -- or a cell with the key that they stand for, which the cache does not share.
  pub public_key_from_bytes_lem :
      (r : Read h) (s : KeyStore h)
      → IsValid h s
      → (res : Result KeyError ℕ) × (s' : KeyStore h) × (public_key_from_bytes h r s
          ≡ done (res, s'))
        × After h s s'
        × Answers h (key_of h r.bytes) res s'
  public_key_from_bytes_lem r s v = elim (Bool-cases (length r.bytes == 48)) [
    | inr short ↦ (
      err wrong_length,
      s,
      read_short r s short,
      After-refl h s v,
      rw (key_of_short r.bytes short) refl,
    )
    | inl long ↦ elim (Option-cases (cache_get h r.hit r.bytes s)) [
      | inr (c, found) ↦
          let (p, here, of) = v r.bytes c (cache_get_found r.hit r.bytes s found) in
          let (a, s1) = alloc h p s in
          (
            ok a,
            s1,
            read_hit r s c p long found here,
            alloc-After h p s v,
            rw of (a, refl, alloc_holds h p s, alloc-IsOwned h p s v),
          )
      | inl missed ↦ elim (Option-cases (deserialize_public_key r.bytes)) [
        | inl bad ↦ (
          err not_a_key,
          s,
          read_bad r s long missed bad,
          After-refl h s v,
          rw (key_of_bad r.bytes long bad) refl,
        )
        | inr (p, good) ↦ elim (Bool-cases (public_key_is_zero p)) [
          | inl zero_point ↦ (
            err infinite_pub_key,
            (alloc h p s).1,
            read_miss r s p long missed good ∙ cache_key_zero r s p zero_point,
            alloc-After h p s v,
            rw (key_of_zero r.bytes p long good zero_point) refl,
          )
          | inr nonzero ↦
              let of = key_of_good r.bytes p long good nonzero in
              let (res, s', e, after, answer) = miss_lem h r p s v nonzero of in
              (res, s', read_miss r s p long missed good ∙ e, after, rw of answer)
        ]
      ]
    ]
  ]
