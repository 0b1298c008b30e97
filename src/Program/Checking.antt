-- ===== src/Program/Checking.antt =====
-- main.go: whether the signature that it makes is verified.
use eth_research.Base.{
  ℕ, ◌<◌, ◌≡◌, ◌≢◌, refl, sym, ap, ◌∙◌, inl, inr, ◌⊎◌, Bool, true, false, some, length, get_elem?,
  arith, Bool-cases, List, done,
}
use eth_research.Base.Dict.{bytes_eq, bytes_beq, bytes_beq_iff}
use eth_research.Bytes.Slices.{to_bytes48}
use eth_research.Bytes.Slices.Copies.{to_bytes48_self}
use eth_research.Bls.Herumi.{Herumi}
use eth_research.Bls.Keys.{KeyStore}
use eth_research.Bls.Keys.Cache.{IsValid}
use eth_research.Wallet.Keymanager.{Codec, Keymanager, Caches, failed_to_verify}
use eth_research.Wallet.Keymanager.Filled.{Filled, public_of}
use eth_research.Wallet.Keymanager.Signing.{sign_step, verify_at}
use eth_research.Program.{not_verified, verified, dummy_slot, check_signature}

module _ (h : Herumi) (codec : Codec) where
  open h use {SecretKey, get_public_key, sign_byte, verify_byte}

  -- Where public keys are read back from their 48 bytes, a nonzero secret key has a public key
  -- that is not infinite, and a signature of a key is verified with its public key and no other:
  -- once the caches are filled from a store whose first two public keys have 48 bytes, `main`
  -- verifies its signature where these two are the same, and fails to verify it where they differ,
  -- since it signs with the second key and verifies with the first.
  pub check_signature_lem :
      (reads : (p : h.PublicKey) → h.deserialize_public_key (h.serialize_public_key p) ≡ some p)
      (finite : (k : SecretKey)
        → h.secret_key_is_zero k ≡ false
        → h.public_key_is_zero (get_public_key k) ≡ false)
      (correct : (k : SecretKey) (m : List ℕ)
        → verify_byte (sign_byte k m) (get_public_key k) m ≡ true)
      (foreign : (j k : SecretKey) (m : List ℕ)
        → get_public_key j ≢ get_public_key k
        → verify_byte (sign_byte k m) (get_public_key j) m ≡ false)
      (hit kept : Bool) (km : Keymanager) (n : ℕ) (c : Caches h) (first second : List ℕ)
      (s : KeyStore h)
      → Filled h km.accounts_store n c
      → 1 < n
      → get_elem? km.accounts_store.public_keys 0 ≡ some (some first)
      → get_elem? km.accounts_store.public_keys 1 ≡ some (some second)
      → length first ≡ 48
      → length second ≡ 48
      → IsValid h s
      → (s' : KeyStore h) × (((first ≡ second)
            × (check_signature h codec hit kept km c s ≡ done (verified, s')))
          ⊎ ((first ≢ second)
              × (check_signature h codec hit kept km c s
                  ≡ done (not_verified failed_to_verify, s'))))
  unfolding check_signature
  check_signature_lem reads finite correct foreign hit kept km n c first second s f low here0 here1
        size0 size1 v =
      let (j, found0) = f.present 0 (some first) (omega arith) here0 in
      let (k, found1) = f.present 1 (some second) low here1 in
      let m = codec.slot_hash dummy_slot in
      let (s', answer, valid) =
        verify_at h codec reads finite hit kept km n c dummy_slot s f v (sign_byte k m) 0 first j
          here0 size0 found0 in
      let signed = sign_step h codec km c dummy_slot 1 second k here1 found1 in
      let (owner0, nonzero0) = f.owner (to_bytes48 first) j found0 in
      let (owner1, nonzero1) = f.owner (to_bytes48 second) k found1 in
      let bytes0 : public_of h j ≡ first = owner0 ∙ to_bytes48_self first size0 in
      let bytes1 : public_of h k ≡ second = owner1 ∙ to_bytes48_self second size1 in
      (
        s',
        elim (Bool-cases (bytes_beq first second)) [
          | inl same ↦
              let eq : first ≡ second = (bytes_beq_iff first second).0 same in
              let read0 : h.deserialize_public_key second ≡ some (get_public_key j) =
                rw (sym eq, sym bytes0) (reads (get_public_key j)) in
              let read1 : h.deserialize_public_key second ≡ some (get_public_key k) =
                rw (sym bytes1) (reads (get_public_key k)) in
              let alike : get_public_key j ≡ get_public_key k = cc in
              let own : verify_byte (sign_byte k m) (get_public_key j) m ≡ true =
                rw alike (correct k m) in
              inl (eq, rw (check_signature, signed, answer, own) refl)
          | inr other ↦
              let apart : first ≢ second =
                λ eq. absurd (ground (arith, other, (bytes_beq_iff first second).1 eq)) in
              let keys_apart : get_public_key j ≢ get_public_key k =
                λ eq. apart (sym bytes0 ∙ ap h.serialize_public_key eq ∙ bytes1) in
              inr (apart, rw (check_signature, signed, answer, foreign j k m keys_apart) refl)
        ],
      )
