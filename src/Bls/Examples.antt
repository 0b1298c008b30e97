-- ===== src/Bls/Examples.antt =====
-- A small library of keys and signatures, and runs of bls/herumi with it.
use eth_research.Base.{
  ℕ, ◌+◌, ◌*◌, ◌≡◌, ◌≢◌, refl, List, [], ◌∷◌, ◌++◌, Bool, true, false, Option, none, some, ◌==◌,
  length, replicate, arith, inl, inr, Bool-cases, done, Result, ok, err, ◌≤◌,
}
use eth_research.Base.Dict.{bytes_eq, bytes_beq, bytes_beq_iff, lookup, insert}
use eth_research.Bytes.Integers.{le_value, bytes8, put_uint64_le}
use eth_research.Bls.Herumi.{Herumi}
use eth_research.Bls.Keys.{
  KeyError, infinite_pub_key, KeyStore, Read, cache_get, copy, load, aggregate_rest, cache_key,
  alloc, aggregate, cache_set, public_key_from_bytes, aggregate_public_keys, rand_key,
}
use eth_research.Bls.Keys.Cache.{key_of, IsValid, After, Answers}
use eth_research.Bls.Keys.Reads.{public_key_from_bytes_lem}
use eth_research.Bls.Keys.Aggregates.{sum_all, Holds, aggregate_public_keys_lem}
use eth_research.Bls.Signatures.{
  verify_multiple_signatures, verify_multiplied, random_scalars, multiply_keys,
}

abbrev first : List ℕ → Option ℕ
first [] = none
first (b ∷ bs) = some b

-- Keys are numbers, a signature is its key and the message, and the bytes of a key begin with it.
abbrev pub toy : Herumi
toy = record {
  Sign = List ℕ;
  PublicKey = ℕ;
  SecretKey = ℕ;
  Fr = ℕ;
  deserialize_sign = some;
  serialize_sign = λ s. s;
  deserialize_public_key = first;
  serialize_public_key = λ p. p ∷ replicate 47 0;
  public_key_is_zero = λ p. p == 0;
  add_public_key = λ p q. p + q;
  deserialize_secret_key = first;
  serialize_secret_key = λ k. k ∷ replicate 31 0;
  secret_key_is_zero = λ k. k == 0;
  get_public_key = λ k. k;
  sign_byte = λ k m. k ∷ m;
  verify_byte = λ s p m. bytes_beq s (p ∷ m);
  aggregate_verify_no_check = λ s ps m. length s == length ps;
  fast_aggregate_verify = λ s ps m. length s == length ps;
  add_sign = λ s t. s ++ t;
  set_little_endian = λ b. some (le_value b);
  g2_mul_vec = λ sigs rs. rs;
  g1_mul = λ p r. p * r;
  hash_and_map_to_signature = λ b. b;
  sign_to_hex_str = λ s. s;
}

abbrev pub key_bytes : ℕ → List ℕ
key_bytes p = p ∷ replicate 47 0

-- One key is cached, in cell 0.
abbrev pub cached : KeyStore toy
cached = record { cells = 7 ∷ []; cache = (key_bytes 7, 0) ∷ [] }

abbrev call : ℕ → Bool → Read toy
call p hit = record { bytes = key_bytes p; hit = hit; kept = true }

pub cached-IsValid : IsValid toy cached
unfolding lookup key_of
cached-IsValid b a e = elim (Bool-cases (bytes_beq b (key_bytes 7))) [
  | inl same ↦
      let eq : b ≡ key_bytes 7 = (bytes_beq_iff b (key_bytes 7)).0 same in
      let at : a ≡ 0 = ground (arith, e, same) in rw (eq, at) (7, refl, refl)
  | inr other ↦ ground (arith, e, other)
]

sum_of_two :
    aggregate_public_keys toy (call 7 true ∷ call 5 false ∷ []) cached
    ≡ done (
      ok (some 1),
      record { cells = 7 ∷ 12 ∷ 5 ∷ 5 ∷ []; cache = (key_bytes 7, 0) ∷ (key_bytes 5, 3) ∷ [] },
    )
unfolding aggregate_public_keys public_key_from_bytes cache_get lookup copy load aggregate_rest
    cache_key alloc aggregate cache_set insert
sum_of_two = refl

infinite_refused :
    aggregate_public_keys toy (call 7 true ∷ call 0 false ∷ []) cached
    ≡ done (err infinite_pub_key, record { cells = 7 ∷ 7 ∷ 0 ∷ []; cache = cached.cache })
unfolding aggregate_public_keys public_key_from_bytes cache_get lookup copy load aggregate_rest
    cache_key alloc aggregate cache_set insert
infinite_refused = refl

public_key_from_bytes_lem_example :
    (res : Result KeyError ℕ) × (s' : KeyStore toy) × (public_key_from_bytes toy
        (call 5 false)
        cached
      ≡ done (res, s'))
    × After toy cached s'
    × Answers toy (key_of toy (key_bytes 5)) res s'
public_key_from_bytes_lem_example =
    public_key_from_bytes_lem toy (call 5 false) cached cached-IsValid

aggregate_public_keys_lem_example :
    (res : Result KeyError (Option ℕ)) × (s' : KeyStore toy) × (aggregate_public_keys toy
        (call 7 true ∷ call 5 false ∷ [])
        cached
      ≡ done (res, s'))
    × IsValid toy s'
    × Holds toy (sum_all toy (key_bytes 7 ∷ key_bytes 5 ∷ [])) res s'
aggregate_public_keys_lem_example =
    aggregate_public_keys_lem toy (call 7 true ∷ call 5 false ∷ []) cached cached-IsValid

toy_reads :
    (k n : ℕ)
    → n + length (toy.serialize_secret_key k) ≡ 32
    → toy.deserialize_secret_key (replicate n 0 ++ toy.serialize_secret_key k) ≡ some k
toy_reads k n e = let at : n ≡ 0 = omega (arith, e) in rw at refl

toy_short : (k : ℕ) → length (toy.serialize_secret_key k) ≤ 32
toy_short k = omega arith

generated : rand_key toy 9 ≡ ok 9
unfolding rand_key
generated = refl

abbrev two_sigs : List (List ℕ)
two_sigs = (4 ∷ []) ∷ (5 ∷ []) ∷ []

abbrev two_messages : List (List ℕ)
two_messages = replicate 32 1 ∷ replicate 32 2 ∷ []

toy_fits : (b : List ℕ) → length b ≡ 8 → toy.set_little_endian b ≢ none
toy_fits b e x = cc

accepted :
    verify_multiple_signatures toy (λ i. i + 3) two_sigs two_messages (some 4 ∷ some 5 ∷ [])
    ≡ done (ok true)
unfolding verify_multiple_signatures verify_multiplied random_scalars bytes8 put_uint64_le
    multiply_keys
accepted = refl
