-- ===== src/Wallet/Keymanager/Signing.antt =====
-- wallet/keymanager.go: `Sign` and `VerifySignature` at one key of the store.
use eth_research.Base.{
  ℕ, ◌<◌, ◌≡◌, refl, sym, ◌∙◌, List, Bool, true, false, not, some, if◌then◌else◌, length, get_elem?,
  get_elem?-some_lt, inl, inr, arith, done, ok, err,
}
use eth_research.Base.Dict.{bytes_eq, lookup}
use eth_research.Bytes.Slices.{to_bytes48}
use eth_research.Bytes.Slices.Copies.{to_bytes48_self}
use eth_research.Bls.Herumi.{Herumi}
use eth_research.Bls.Keys.{KeyStore, Read, load, public_key_from_bytes}
use eth_research.Bls.Keys.Cache.{IsValid}
use eth_research.Bls.Keys.Reads.{key_of_good, public_key_from_bytes_lem}
use eth_research.Bls.Signatures.{verify}
use eth_research.Wallet.Keymanager.{
  SlotInfo, Codec, AccountStore, KeymanagerError, Keymanager, Caches, sign, verify_signature,
  initialize_keys_caches_from_keystore,
}
use eth_research.Wallet.Keymanager.Filled.{IsPaired, Filled, public_of}
use eth_research.Wallet.Keymanager.Filling.{initialize_keys_caches_from_keystore_lem}

module _ (h : Herumi) (codec : Codec) where
  open h use {
    Sign, SecretKey, get_public_key, sign_byte, verify_byte, secret_key_is_zero, public_key_is_zero,
    serialize_public_key, deserialize_public_key,
  }

  pub sign_step :
      (km : Keymanager) (c : Caches h) (slot_info : SlotInfo) (i : ℕ) (public_key : List ℕ)
      (k : SecretKey)
      → get_elem? km.accounts_store.public_keys i ≡ some (some public_key)
      → lookup (to_bytes48 public_key) c.secret_keys ≡ some k
      → sign h codec km c slot_info i ≡ done (ok (sign_byte k (codec.slot_hash slot_info)))
  unfolding sign
  sign_step km c slot_info i public_key k here found = ground (arith, here, found)

  verify_step :
      (hit kept : Bool) (km : Keymanager) (slot_info : SlotInfo) (i : ℕ) (signature : Sign)
      (s s1 : KeyStore h) (public_key : List ℕ) (p : h.PublicKey) (a : ℕ)
      → get_elem? km.accounts_store.public_keys i ≡ some (some public_key)
      → public_key_from_bytes h (record { bytes = public_key; hit = hit; kept = kept }) s
        ≡ done (ok a, s1)
      → get_elem? s1.cells a ≡ some p
      → verify_signature h codec hit kept km slot_info i signature s
        ≡ done (
          (if not (verify h signature p (codec.slot_hash slot_info))
              then err KeymanagerError.failed_to_verify
              else ok true),
          s1,
        )
  unfolding verify_signature load
  verify_step hit kept km slot_info i signature s s1 public_key p a here read holds =
      rw (verify_signature, here, read, load, holds) refl

  verify_lem :
      (signature : Sign) (p : h.PublicKey) (m : List ℕ)
      → public_key_is_zero p ≡ false
      → verify h signature p m ≡ verify_byte signature p m
  unfolding verify
  verify_lem signature p m nonzero = ground (arith, nonzero)

  module _ (reads : (p : h.PublicKey) → deserialize_public_key (serialize_public_key p) ≡ some p)
      (finite : (k : SecretKey)
        → secret_key_is_zero k ≡ false
        → public_key_is_zero (get_public_key k) ≡ false)
      (hit kept : Bool) (km : Keymanager) (n : ℕ) (c : Caches h) (slot_info : SlotInfo)
      (s : KeyStore h) (f : Filled h km.accounts_store n c) (v : IsValid h s) where
    -- `VerifySignature` at the index of the key of 48 bytes of the secret key `k`.
    pub verify_at :
        (signature : Sign) (i : ℕ) (public_key : List ℕ) (k : SecretKey)
        → get_elem? km.accounts_store.public_keys i ≡ some (some public_key)
        → length public_key ≡ 48
        → lookup (to_bytes48 public_key) c.secret_keys ≡ some k
        → (s' : KeyStore h) × (verify_signature h codec hit kept km slot_info i signature s
            ≡ done (
              (if not (verify_byte signature (get_public_key k) (codec.slot_hash slot_info))
                  then err KeymanagerError.failed_to_verify
                  else ok true),
              s',
            ))
          × IsValid h s'
    verify_at signature i public_key k here size found =
        let (is, nonzero) = f.owner (to_bytes48 public_key) k found in
        let same : public_of h k ≡ public_key = is ∙ to_bytes48_self public_key size in
        let p = get_public_key k in
        let parsed : deserialize_public_key public_key ≡ some p = rw (sym same) (reads p) in
        let good = key_of_good h public_key p (ground (arith, size)) parsed (finite k nonzero) in
        let call : Read h = record { bytes = public_key; hit = hit; kept = kept } in
        let (res, s', read, after, answer) = public_key_from_bytes_lem h call s v in
        let (a, answered, holds, own) = rw good at answer in
        let test = verify_lem signature p (codec.slot_hash slot_info) (finite k nonzero) in
        (
          s',
          verify_step hit kept km slot_info i signature s s' public_key p a here
                (rw (sym answered) read) holds
              ∙ rw test refl,
          after.valid,
        )

  -- The same of a keymanager whose caches are filled.
  pub sign-verify_ready :
      (reads : (p : h.PublicKey) → deserialize_public_key (serialize_public_key p) ≡ some p)
      (finite : (k : SecretKey)
        → secret_key_is_zero k ≡ false
        → public_key_is_zero (get_public_key k) ≡ false)
      (correct : (k : SecretKey) (m : List ℕ)
        → verify_byte (sign_byte k m) (get_public_key k) m ≡ true)
      (hit kept : Bool) (km : Keymanager) (n : ℕ) (c : Caches h) (slot_info : SlotInfo) (i : ℕ)
      (public_key : List ℕ) (s : KeyStore h)
      → Filled h km.accounts_store n c
      → i < n
      → get_elem? km.accounts_store.public_keys i ≡ some (some public_key)
      → length public_key ≡ 48
      → IsValid h s
      → (signature : Sign) × (s' : KeyStore h) × (sign h codec km c slot_info i
          ≡ done (ok signature))
        × (verify_signature h codec hit kept km slot_info i signature s ≡ done (ok true, s'))
        × IsValid h s'
  sign-verify_ready reads finite correct hit kept km n c slot_info i public_key s f low here size
        v =
      let (k, found) = f.present i (some public_key) low here in
      let signature = sign_byte k (codec.slot_hash slot_info) in
      let (s', verified, valid) =
        verify_at reads finite hit kept km n c slot_info s f v signature i public_key k here size
          found in
      (
        signature,
        s',
        sign_step km c slot_info i public_key k here found,
        verified ∙ rw (correct k (codec.slot_hash slot_info)) refl,
        valid,
      )

  initialize-Filled :
      (store : AccountStore) (c0 c : Caches h) (b : Bool)
      → IsPaired h store
      → length store.public_keys ≡ length store.private_keys
      → initialize_keys_caches_from_keystore h store c0 ≡ done (ok b, c)
      → Filled h store (length store.private_keys) c
  initialize-Filled store c0 c b pairs same run =
      elim (initialize_keys_caches_from_keystore_lem h store c0 pairs same) [
        | inl (c1, filled, f) ↦ let is : c1 ≡ c = cc in rw (sym is) f
        | inr (e, (c1, (j, (private_key, bad, at, refused)))) ↦ cc
      ]

  -- Where public keys are read back from their 48 bytes, a nonzero secret key has a public key
  -- that is not infinite, and a signature of a key is verified with its public key, and where the
  -- store has as many private as public keys, each public key that of its private key: once
  -- `initializeKeysCachesFromKeystore` has filled the caches without an error, `Sign` at the index of
  -- a key of 48 bytes of the store returns a signature, and `VerifySignature` accepts it for the same
  -- slot and index, whatever the cache of public keys holds or drops, and leaves that cache right.
  pub sign-verify_signature :
      (reads : (p : h.PublicKey) → deserialize_public_key (serialize_public_key p) ≡ some p)
      (finite : (k : SecretKey)
        → secret_key_is_zero k ≡ false
        → public_key_is_zero (get_public_key k) ≡ false)
      (correct : (k : SecretKey) (m : List ℕ)
        → verify_byte (sign_byte k m) (get_public_key k) m ≡ true)
      (hit kept : Bool) (km : Keymanager) (c0 c : Caches h) (b : Bool) (slot_info : SlotInfo)
      (i : ℕ) (public_key : List ℕ) (s : KeyStore h)
      → IsPaired h km.accounts_store
      → length km.accounts_store.public_keys ≡ length km.accounts_store.private_keys
      → initialize_keys_caches_from_keystore h km.accounts_store c0 ≡ done (ok b, c)
      → get_elem? km.accounts_store.public_keys i ≡ some (some public_key)
      → length public_key ≡ 48
      → IsValid h s
      → (signature : Sign) × (s' : KeyStore h) × (sign h codec km c slot_info i
          ≡ done (ok signature))
        × (verify_signature h codec hit kept km slot_info i signature s ≡ done (ok true, s'))
        × IsValid h s'
  sign-verify_signature reads finite correct hit kept km c0 c b slot_info i public_key s pairs same
        run here size v =
      let n = length km.accounts_store.private_keys in
      let low : i < n =
        omega
          (arith, same, get_elem?-some_lt km.accounts_store.public_keys i (some public_key) here) in
      sign-verify_ready reads finite correct hit kept km n c slot_info i public_key s
        (initialize-Filled km.accounts_store c0 c b pairs same run) low here size v
