-- ===== src/Bls/Keys/Secrets.antt =====
-- bls/herumi/secret_key.go: which bytes are a secret key, and the bytes that `Marshal` writes.
use eth_research.Base.{
  ℕ, ◌+◌, ◌-◌, ◌≤◌, ◌≡◌, refl, List, ◌++◌, false, some, ltb, length, length-append,
  length-replicate, replicate, arith, inl, inr, Bool-cases, ok,
}
use eth_research.Bls.Herumi.{Herumi}
use eth_research.Bls.Keys.{secret_key_from_bytes, marshal_secret_key, rand_key}

module _ (h : Herumi) where
  open h use {
    SecretKey, deserialize_secret_key, secret_key_is_zero, serialize_secret_key, get_public_key,
    public_key_is_zero,
  }

  -- Bytes are accepted as a key only if they are 32, and the key is not zero.
  pub secret_key_from_bytes_accepts :
      (b : List ℕ) (k : SecretKey)
      → secret_key_from_bytes h b ≡ ok k
      → (length b ≡ 32) × (deserialize_secret_key b ≡ some k) × (secret_key_is_zero k ≡ false)
  unfolding secret_key_from_bytes
  secret_key_from_bytes_accepts b k e = ground (arith, e)

  marshal_length :
      (k : SecretKey) → length (serialize_secret_key k) ≤ 32 → length (marshal_secret_key h k) ≡ 32
  unfolding marshal_secret_key
  marshal_length k short = ground (
    arith,
    short,
    length-append (replicate (32 - length (serialize_secret_key k)) 0) (serialize_secret_key k),
    length-replicate {A = ℕ} (32 - length (serialize_secret_key k)) 0,
  )

  marshal_lem :
      (k : SecretKey)
      → length (serialize_secret_key k) ≤ 32
      → marshal_secret_key h k
        ≡ replicate (32 - length (serialize_secret_key k)) 0 ++ serialize_secret_key k
  unfolding marshal_secret_key
  marshal_lem k short = elim (Bool-cases (ltb (length (serialize_secret_key k)) 32)) [
    | inl less ↦ rw less refl
    | inr full ↦
        let none_left : 32 - length (serialize_secret_key k) ≡ 0 = ground (arith, full) in
        rw (full, none_left) refl
  ]

  -- Where the library writes at most 32 bytes and reads them back with zeros in front, the key
  -- that `RandKey` returns is read back from the bytes that `Marshal` writes, which are 32.
  pub secret_key_round_trip :
      (short : (k : SecretKey) → length (serialize_secret_key k) ≤ 32)
      (reads : (k : SecretKey) (n : ℕ)
        → n + length (serialize_secret_key k) ≡ 32
        → deserialize_secret_key (replicate n 0 ++ serialize_secret_key k) ≡ some k)
      (generated k : SecretKey)
      → rand_key h generated ≡ ok k
      → (secret_key_from_bytes h (marshal_secret_key h k) ≡ ok generated)
        × (length (marshal_secret_key h k) ≡ 32)
  unfolding secret_key_from_bytes rand_key
  secret_key_round_trip short reads generated k e =
      let len = marshal_length k (short k) in
      let missing = 32 - length (serialize_secret_key k) in
      let back : deserialize_secret_key (marshal_secret_key h k) ≡ some k =
        rw (marshal_lem k (short k)) (reads k missing (omega (arith, short k))) in
      (ground (arith, e, len, back), len)
