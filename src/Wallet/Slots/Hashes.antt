-- ===== src/Wallet/Slots/Hashes.antt =====
-- wallet/types.go: which slots share a hash, and what that does to their signatures.
use eth_research.Base.{
  ℕ, ◌≡◌, ◌≢◌, ◌∙◌, List, Bool, true, false, Option, none, some, length, get_elem?, done, ok,
}
use eth_research.Bls.Herumi.{Herumi}
use eth_research.Bls.Keys.{KeyStore}
use eth_research.Bls.Keys.Cache.{IsValid}
use eth_research.Wallet.Stored.{SlotInfo, Codec, Keymanager}
use eth_research.Wallet.Keymanager.{
  Caches, sign, verify_signature, initialize_keys_caches_from_keystore,
}
use eth_research.Wallet.Keymanager.Filled.{IsPaired}
use eth_research.Wallet.Keymanager.Signing.{sign-verify_signature}
use eth_research.Wallet.Slots.{with_hash, hash-sign}

module _ (encode_value : SlotInfo → Option (List ℕ)) (keccak : List ℕ → List ℕ) where
  -- Different bytes of the same hash.
  abbrev pub Collides : Type 0
  Collides = (b : List ℕ) × (b' : List ℕ) × (b ≢ b') × (keccak b ≡ keccak b')

  -- Where package rlp refuses a value of a type whose `EncodeRLP` belongs to the pointer, over a library
  -- of keys that reads public keys back from their 48 bytes, gives a nonzero secret key a public key that
  -- is not infinite and verifies its own signatures, and once the caches are filled from a store of as
  -- many private as public keys, each public key that of its private key: the signature that `Sign` makes
  -- of one slot at a key of 48 bytes is accepted by `VerifySignature` for every other slot.
  pub verify_signature-sign_other :
      (refuses : (s : SlotInfo) → encode_value s ≡ none) (h : Herumi) (codec : Codec)
      (reads : (p : h.PublicKey) → h.deserialize_public_key (h.serialize_public_key p) ≡ some p)
      (finite : (k : h.SecretKey)
        → h.secret_key_is_zero k ≡ false
        → h.public_key_is_zero (h.get_public_key k) ≡ false)
      (correct : (k : h.SecretKey) (m : List ℕ)
        → h.verify_byte (h.sign_byte k m) (h.get_public_key k) m ≡ true)
      (hit kept : Bool) (km : Keymanager) (c0 c : Caches h) (b : Bool) (signed other : SlotInfo)
      (i : ℕ) (public_key : List ℕ) (s : KeyStore h)
      → IsPaired h km.accounts_store
      → length km.accounts_store.public_keys ≡ length km.accounts_store.private_keys
      → initialize_keys_caches_from_keystore h km.accounts_store c0 ≡ done (ok b, c)
      → get_elem? km.accounts_store.public_keys i ≡ some (some public_key)
      → length public_key ≡ 48
      → IsValid h s
      → (signature : h.Sign) × (s' : KeyStore h) × (sign h
            (with_hash encode_value keccak codec)
            km
            c
            signed
            i
          ≡ done (ok signature))
        × (verify_signature h (with_hash encode_value keccak codec) hit kept km other i signature s
            ≡ done (ok true, s'))
  verify_signature-sign_other refuses h codec reads finite correct hit kept km c0 c b signed other i
        public_key s pairs same run here size v =
      let hashed = with_hash encode_value keccak codec in
      let (signature, s', made, accepted, valid) =
        sign-verify_signature h hashed reads finite correct hit kept km c0 c b other i public_key s
          pairs same run here size v in
      let alike = (hash-sign encode_value keccak refuses h codec km c signed other i).1 in
      (signature, s', alike ∙ made, accepted)
