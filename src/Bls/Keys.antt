-- ===== src/Bls/Keys.antt =====
-- bls/herumi/public_key.go and secret_key.go. A `PublicKey` of the package points at a key that
-- `Aggregate` changes in place, so public keys live in cells, and the cache holds cells too.
pub mod Cache
pub mod Reads
pub mod Aggregates
pub mod Secrets
use eth_research.Base.{
  ℕ, zero, suc, ◌+◌, ◌-◌, ◌<◌, List, [], ◌∷◌, ◌++◌, Bool, true, false, not, Option, none, some, ltb,
  ◌==◌, if◌then◌else◌, length, get_elem?, set, replicate, Outcome, done, panic, ◌>>=◌, Result, ok,
  err,
}
use eth_research.Base.Dict.{Dict, Eq, bytes_eq, lookup, insert}
use eth_research.Bls.Herumi.{Herumi}

-- The errors of `PublicKeyFromBytes` and `SecretKeyFromBytes`.
pub data KeyError : Type 0 where
  wrong_length not_a_key infinite_pub_key secret_unmarshal zero_key generated_zero_key : KeyError

module _ (h : Herumi) where
  open h use {
    PublicKey, SecretKey, deserialize_public_key, public_key_is_zero, add_public_key,
    deserialize_secret_key, secret_key_is_zero, serialize_secret_key,
  }

  -- The cells of all public keys, and `pubkeyCache`.
  pub record KeyStore : Type 0 where
    pub cells : List PublicKey
    pub cache : Dict (List ℕ) ℕ

  unfoldable pub load : ℕ → KeyStore → Outcome PublicKey
  load a s = elim (get_elem? s.cells a) [ none ↦ panic | some p ↦ done p ]

  -- A new cell.
  unfoldable pub alloc : PublicKey → KeyStore → ℕ × KeyStore
  alloc p s = (length s.cells, record s { cells = s.cells ++ (p ∷ []) })

  -- `PublicKey.Copy`
  unfoldable pub copy : ℕ → KeyStore → Outcome (ℕ × KeyStore)
  copy a s = do p ← load a s; done (alloc p s)

  -- A call of `PublicKeyFromBytes`: its argument, and what the cache does in it. The cache may
  -- miss an entry, and may drop a new one.
  pub record Read : Type 0 where
    pub bytes : List ℕ
    pub hit : Bool
    pub kept : Bool

  -- `pubkeyCache.Set` and `pubkeyCache.Get`, where the first argument is what the cache does.
  unfoldable pub cache_set : Bool → List ℕ → ℕ → KeyStore → KeyStore
  cache_set true bytes a s = record s { cache = insert bytes a s.cache }
  cache_set false bytes a s = s

  unfoldable pub cache_get : Bool → List ℕ → KeyStore → Option ℕ
  cache_get true bytes s = lookup bytes s.cache
  cache_get false bytes s = none

  -- `PublicKeyFromBytes` after a miss, with the key that was read.
  unfoldable pub cache_key : Read → PublicKey → KeyStore → Outcome (Result KeyError ℕ × KeyStore)
  cache_key r p s = do
    let (a, s1) = alloc p s
    (if public_key_is_zero p
        then done (err infinite_pub_key, s1)
        else (do (kept_copy, s2) ← copy a s1; done (ok a, cache_set r.kept r.bytes kept_copy s2)))

  unfoldable pub public_key_from_bytes : Read → KeyStore → Outcome (Result KeyError ℕ × KeyStore)
  public_key_from_bytes r s =
      if not (length r.bytes == 48)
      then done (err wrong_length, s)
      else elim (cache_get r.hit r.bytes s) [
        | some cached ↦ do (a, s1) ← copy cached s; done (ok a, s1)
        | none ↦ elim (deserialize_public_key r.bytes) [
          | none ↦ done (err not_a_key, s)
          | some p ↦ cache_key r p s
        ]
      ]

  -- `p.Aggregate(p2)` changes the cell of `p`.
  unfoldable pub aggregate : ℕ → ℕ → KeyStore → Outcome KeyStore
  aggregate a a2 s = do
    p ← load a s
    p2 ← load a2 s
    done (record s { cells = set s.cells a (add_public_key p p2) })

  -- The loop of `AggregatePublicKeys` over the keys after the first.
  unfoldable pub aggregate_rest :
      ℕ → List Read → KeyStore → Outcome (Result KeyError (Option ℕ) × KeyStore)
  aggregate_rest a [] s = done (ok (some a), s)
  aggregate_rest a (r ∷ rest) s = do
    (key, s1) ← public_key_from_bytes r s
    (elim key [
      | err e ↦ done (err e, s1)
      | ok a2 ↦ do s2 ← aggregate a a2 s1; aggregate_rest a rest s2
    ])

  -- Of no keys at all the result is a `PublicKey` that points nowhere.
  unfoldable pub aggregate_public_keys :
      List Read → KeyStore → Outcome (Result KeyError (Option ℕ) × KeyStore)
  aggregate_public_keys [] s = done (ok none, s)
  aggregate_public_keys (r ∷ rest) s = do
    (key, s1) ← public_key_from_bytes r s
    (elim key [ err e ↦ done (err e, s1) | ok a ↦ aggregate_rest a rest s1 ])

  -- `RandKey`, with the key that the system's generator gave.
  unfoldable pub rand_key : SecretKey → Result KeyError SecretKey
  rand_key generated = if secret_key_is_zero generated then err generated_zero_key else ok generated

  unfoldable pub secret_key_from_bytes : List ℕ → Result KeyError SecretKey
  secret_key_from_bytes priv_key =
      if not (length priv_key == 32)
      then err wrong_length
      else elim (deserialize_secret_key priv_key) [
        | none ↦ err secret_unmarshal
        | some k ↦ if secret_key_is_zero k then err zero_key else ok k
      ]

  -- `bls12SecretKey.Marshal`: zeros in front up to 32 bytes.
  unfoldable pub marshal_secret_key : SecretKey → List ℕ
  marshal_secret_key k =
      let key_bytes = serialize_secret_key k in
      if ltb (length key_bytes) 32
      then replicate (32 - length key_bytes) 0 ++ key_bytes
      else key_bytes
