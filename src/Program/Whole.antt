-- ===== src/Program/Whole.antt =====
-- main.go: a whole run of the program on a wallet with two keys.
use eth_research.Base.{
  ℕ, ◌<◌, ◌≡◌, ◌≢◌, refl, ap, ◌∙◌, inl, inr, ◌⊎◌, Bool, true, false, some, ◌==◌, length, get_elem?,
  get_elem?-some_lt, arith, List, [], done, ok, err,
}
use eth_research.Base.Dict.{Dict}
use eth_research.Base.Text.{String}
use eth_research.Files.System.{Host}
use eth_research.Bls.Herumi.{Herumi}
use eth_research.Bls.Keys.{KeyStore, KeyError}
use eth_research.Bls.Keys.Cache.{IsValid}
use eth_research.Wallet.{Wallet, open_wallet}
use eth_research.Wallet.Keymanager.{
  Codec, Keymanager, KeymanagerError, AccountStore, Caches, Encoded, encoded, plain,
  failed_to_verify, in_key, empty_keymanager, new_keymanager, initialize_account_keystore,
  use_store, disable, initialize_keys_caches_from_keystore,
}
use eth_research.Wallet.Keymanager.Filled.{IsPaired}
use eth_research.Wallet.Keymanager.Filling.{initialize_keys_caches_from_keystore_lem}
use eth_research.Program.{
  Ended, no_keymanager, not_verified, verified, main_config, read_keystore, check_signature,
  run_main,
}
use eth_research.Program.Checking.{check_signature_lem}

module _ (h : Herumi) (codec : Codec) where
  open h use {SecretKey, get_public_key, sign_byte, verify_byte}

  -- The store of a file that is read, decrypted and decoded is used as `use_store` does.
  pub new_keymanager_step :
      (bytes enc : List ℕ) (crypto : codec.Crypto) (disabled_keys : List String) (password : String)
      (store : AccountStore) (c : Caches h)
      → codec.unmarshal_keystore bytes ≡ some (crypto, disabled_keys)
      → codec.decrypt crypto password ≡ plain enc
      → codec.unmarshal_store enc ≡ some store
      → new_keymanager h codec (encoded bytes) password c
        ≡ use_store h codec disabled_keys store empty_keymanager c
  unfolding new_keymanager initialize_account_keystore
  new_keymanager_step bytes enc crypto disabled_keys password store c e1 e2 e3 =
      rw (new_keymanager, initialize_account_keystore, e1, e2, e3) refl

  pub use_store_step :
      (disabled_keys : List String) (disabled : Dict (List ℕ) Bool) (store : AccountStore)
      (c c1 : Caches h) (b : Bool)
      → length store.public_keys ≡ length store.private_keys
      → 0 < length store.public_keys
      → disable h codec disabled_keys [] ≡ ok disabled
      → initialize_keys_caches_from_keystore h store c ≡ done (ok b, c1)
      → use_store h codec disabled_keys store empty_keymanager c
        ≡ done (ok (record { accounts_store = store; disabled_public_keys = disabled }), c1)
  unfolding use_store
  use_store_step disabled_keys disabled store c c1 b same some_keys dis filled =
      let even : (length store.public_keys == length store.private_keys) ≡ true =
        ground (arith, same) in
      let present : (length store.public_keys == 0) ≡ false = ground (arith, some_keys) in
      rw (use_store, even, present, dis, filled) refl

  use_store_bad :
      (disabled_keys : List String) (disabled : Dict (List ℕ) Bool) (store : AccountStore)
      (c c1 : Caches h) (e : KeymanagerError)
      → length store.public_keys ≡ length store.private_keys
      → 0 < length store.public_keys
      → disable h codec disabled_keys [] ≡ ok disabled
      → initialize_keys_caches_from_keystore h store c ≡ done (err e, c1)
      → use_store h codec disabled_keys store empty_keymanager c ≡ done (err e, c1)
  unfolding use_store
  use_store_bad disabled_keys disabled store c c1 e same some_keys dis bad =
      let even : (length store.public_keys == length store.private_keys) ≡ true =
        ground (arith, same) in
      let present : (length store.public_keys == 0) ≡ false = ground (arith, some_keys) in
      rw (use_store, even, present, dis, bad) refl

  module _ (os : Host) (hit kept : Bool) (d d1 : os.Disk) (w : Wallet) (bytes : List ℕ)
      (opened : open_wallet os d main_config ≡ ok w)
      (read : read_keystore os w d ≡ (encoded bytes, d1)) where
    run_main_step :
        (c c1 : Caches h) (s s1 : KeyStore h) (km : Keymanager) (ended : Ended)
        → new_keymanager h codec (encoded bytes) w.password c ≡ done (ok km, c1)
        → check_signature h codec hit kept km c1 s ≡ done (ended, s1)
        → run_main h codec os hit kept d c s ≡ done (ended, (s1, d1))
    unfolding run_main
    run_main_step c c1 s s1 km ended made checked =
        rw (run_main, opened, read, made, checked)
          (ap (λ (x : Encoded × os.Disk). done (ended, (s1, x.1))) read)

    run_main_bad :
        (c c1 : Caches h) (s : KeyStore h) (e : KeymanagerError)
        → new_keymanager h codec (encoded bytes) w.password c ≡ done (err e, c1)
        → run_main h codec os hit kept d c s ≡ done (no_keymanager e, (s, d1))
    unfolding run_main
    run_main_bad c c1 s e made =
        rw (run_main, opened, read, made)
          (ap (λ (x : Encoded × os.Disk). done (no_keymanager e, (s, x.1))) read)

    -- Where the library of keys reads public keys back from their 48 bytes, gives a nonzero secret
    -- key a public key that is not infinite, and verifies a signature of a key with its public key
    -- and no other; where the wallet opens, and its keystore is read, decrypted, and decoded to a
    -- store of as many private as public keys, each public key that of its private key, the first
    -- two of 48 bytes: `main` ends with the error of a private key that is not accepted, or it
    -- verifies its signature and the first two keys are the same, or it fails to verify it and
    -- they differ, since it signs with the second key and verifies with the first.
    pub run_main_lem :
        (reads : (p : h.PublicKey) → h.deserialize_public_key (h.serialize_public_key p) ≡ some p)
        (finite : (k : SecretKey)
          → h.secret_key_is_zero k ≡ false
          → h.public_key_is_zero (get_public_key k) ≡ false)
        (correct : (k : SecretKey) (m : List ℕ)
          → verify_byte (sign_byte k m) (get_public_key k) m ≡ true)
        (foreign : (j k : SecretKey) (m : List ℕ)
          → get_public_key j ≢ get_public_key k
          → verify_byte (sign_byte k m) (get_public_key j) m ≡ false)
        (enc : List ℕ) (crypto : codec.Crypto) (disabled_keys : List String)
        (disabled : Dict (List ℕ) Bool) (store : AccountStore) (c : Caches h)
        (first second : List ℕ) (s : KeyStore h)
        → codec.unmarshal_keystore bytes ≡ some (crypto, disabled_keys)
        → disable h codec disabled_keys [] ≡ ok disabled
        → codec.decrypt crypto w.password ≡ plain enc
        → codec.unmarshal_store enc ≡ some store
        → IsPaired h store
        → length store.public_keys ≡ length store.private_keys
        → get_elem? store.public_keys 0 ≡ some (some first)
        → get_elem? store.public_keys 1 ≡ some (some second)
        → length first ≡ 48
        → length second ≡ 48
        → IsValid h s
        → ((e : KeyError) × (run_main h codec os hit kept d c s
              ≡ done (no_keymanager (in_key e), (s, d1))))
          ⊎ ((s' : KeyStore h) × (((first ≡ second)
                  × (run_main h codec os hit kept d c s ≡ done (verified, (s', d1))))
                ⊎ ((first ≢ second)
                    × (run_main h codec os hit kept d c s
                        ≡ done (not_verified failed_to_verify, (s', d1))))))
    run_main_lem reads finite correct foreign enc crypto disabled_keys disabled store c first second
          s decoded dis decrypted stored pairs same here0 here1 size0 size1 v =
        let many = get_elem?-some_lt store.public_keys 1 (some second) here1 in
        let step =
          new_keymanager_step bytes enc crypto disabled_keys w.password store c decoded decrypted
            stored in
        elim (initialize_keys_caches_from_keystore_lem h store c pairs same) [
          | inr (e, (c1, (j, (private_key, bad, at, refused)))) ↦
              let made =
                use_store_bad disabled_keys disabled store c c1 (in_key e) same
                  (omega (arith, many)) dis bad in
              inl (e, run_main_bad c c1 s (in_key e) (step ∙ made))
          | inl (c1, filled, f) ↦
              let km : Keymanager = record {
                accounts_store = store;
                disabled_public_keys = disabled;
              } in
              let made =
                use_store_step disabled_keys disabled store c c1 true same (omega (arith, many)) dis
                  filled in
              let (s', ends) =
                check_signature_lem h codec reads finite correct foreign hit kept km
                  (length store.private_keys) c1 first second s f (omega (arith, many, same)) here0
                  here1 size0 size1 v in
              inr (
                s',
                elim ends [
                  | inl (eq, checked) ↦
                      inl (eq, run_main_step c c1 s s' km verified (step ∙ made) checked)
                  | inr (apart, checked) ↦ inr (
                    apart,
                    run_main_step c c1 s s' km (not_verified failed_to_verify) (step ∙ made)
                        checked,
                  )
                ],
              )
        ]
