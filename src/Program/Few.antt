-- ===== src/Program/Few.antt =====
-- main.go: wallets with fewer than two accounts.
use eth_research.Base.{
  ℕ, ◌<◌, ◌≡◌, refl, ◌∙◌, inl, inr, List, [], ◌∷◌, Bool, true, none, some, ◌==◌, length, get_elem?,
  arith, Bool-cases, done, panic, ok,
}
use eth_research.Base.Dict.{Dict}
use eth_research.Base.Text.{String}
use eth_research.Files.System.{Host}
use eth_research.Bls.Herumi.{Herumi}
use eth_research.Bls.Keys.{KeyStore, secret_key_from_bytes}
use eth_research.Wallet.{Wallet, open_wallet}
use eth_research.Wallet.Keymanager.{
  AccountStore, Encoded, no_files, read_failed, encoded, plain, Codec, Keymanager, Caches,
  empty_keymanager, new_keymanager, initialize_account_keystore, use_store, disable, sign,
}
use eth_research.Wallet.Keymanager.Filled.{IsPaired}
use eth_research.Wallet.Keymanager.Filling.{initialize_keys_caches_from_keystore_lem}
use eth_research.Program.Whole.{new_keymanager_step, use_store_step}
use eth_research.Program.{main_config, read_keystore, check_signature, run_main}

get_elem?-past : {A : Type 0} (xs : List A) → length xs < 2 → get_elem? xs 1 ≡ none
get_elem?-past [] few = refl
get_elem?-past (x ∷ []) few = refl
get_elem?-past (x ∷ y ∷ xs) few = absurd (omega (arith, few))

module _ (h : Herumi) (codec : Codec) (os : Host) (hit kept : Bool) (d d1 : os.Disk) where
  check_few :
      (km : Keymanager) (c : Caches h) (s : KeyStore h)
      → length km.accounts_store.public_keys < 2
      → check_signature h codec hit kept km c s ≡ panic
  unfolding check_signature sign
  check_few km c s few =
      let past = get_elem?-past km.accounts_store.public_keys few in
      rw (check_signature, sign, past) refl

  run_main-few :
      (w : Wallet) (file : Encoded) (km : Keymanager) (c c1 : Caches h) (s : KeyStore h)
      → open_wallet os d main_config ≡ ok w
      → read_keystore os w d ≡ (file, d1)
      → new_keymanager h codec file w.password c ≡ done (ok km, c1)
      → length km.accounts_store.public_keys < 2
      → run_main h codec os hit kept d c s ≡ panic
  unfolding run_main
  run_main-few w file km c c1 s opened read made few =
      rw (run_main, opened, read, made, check_few km c1 s few) refl

  -- A keystore that is missing, or is read, decrypted and decoded, with its disabled keys, to a store
  -- of fewer than two accounts, of as many private as public keys, each public key that of its private key, and each
  -- private key accepted.
  abbrev pub FewAccounts : String → Encoded → Type 0
  FewAccounts password no_files = Unit
  FewAccounts password read_failed = ⊥
  FewAccounts password (encoded bytes) =
      (crypto : codec.Crypto) × (disabled_keys : List String) × (disabled : Dict (List ℕ) Bool)
      × (enc : List ℕ) × (store : AccountStore) × (codec.unmarshal_keystore bytes
          ≡ some (crypto, disabled_keys))
      × (codec.decrypt crypto password ≡ plain enc)
      × (codec.unmarshal_store enc ≡ some store)
      × (disable h codec disabled_keys [] ≡ ok disabled)
      × IsPaired h store
      × (length store.public_keys ≡ length store.private_keys)
      × (length store.public_keys < 2)
      × ((i : ℕ) (private_key : List ℕ)
          → get_elem? store.private_keys i ≡ some private_key
          → (k : h.SecretKey) × (secret_key_from_bytes h private_key ≡ ok k))

  -- The keymanager that `NewKeymanager` makes of fewer than two accounts.
  abbrev MadeFew : String → Encoded → Caches h → Type 0
  MadeFew password file c =
      (km : Keymanager) × (c1 : Caches h) × (new_keymanager h codec file password c
        ≡ done (ok km, c1))
      × (length km.accounts_store.public_keys < 2)

  use_store-none :
      (disabled_keys : List String) (store : AccountStore) (c : Caches h)
      → length store.public_keys ≡ length store.private_keys
      → length store.public_keys ≡ 0
      → use_store h codec disabled_keys store empty_keymanager c ≡ done (ok empty_keymanager, c)
  unfolding use_store
  use_store-none disabled_keys store c same no_keys = ground (arith, same, no_keys)

  new_keymanager-few :
      (password : String) (file : Encoded) (c : Caches h)
      → FewAccounts password file
      → MadeFew password file c
  unfolding new_keymanager initialize_account_keystore
  new_keymanager-few password no_files c few = (empty_keymanager, c, refl, omega arith)
  new_keymanager-few password read_failed c few = absurd few
  new_keymanager-few password (encoded bytes) c
        (
          crypto, disabled_keys, disabled, enc, store, decoded, decrypted, stored, dis, pairs, same,
          few, accepted,
        ) =
      let step =
        new_keymanager_step h codec bytes enc crypto disabled_keys password store c decoded
          decrypted stored in
      elim (Bool-cases (length store.public_keys == 0)) [
        | inl no_keys ↦ (
          empty_keymanager,
          c,
          step ∙ use_store-none disabled_keys store c same (ground (arith, no_keys)),
          omega arith,
        )
        | inr keys ↦ elim (initialize_keys_caches_from_keystore_lem h store c pairs same) [
          | inr (e, (c1, (j, (private_key, bad, at, refused)))) ↦
              let (k, good) = accepted j private_key at in cc
          | inl (c1, filled, f) ↦ (
            record { accounts_store = store; disabled_public_keys = disabled },
            c1,
            step
                ∙ use_store_step h codec disabled_keys disabled store c c1 true same
                    (ground (arith, keys)) dis filled,
            few,
          )
        ]
      ]

  -- Where the wallet opens and its keystore is missing, or is read, decrypted and decoded, with its
  -- disabled keys, to a store of fewer than two accounts, as many private as public keys, each public
  -- key that of its private key, which is accepted: `main` panics, since it signs with the key of
  -- index 1.
  pub run_main-panics :
      (w : Wallet) (file : Encoded) (c : Caches h) (s : KeyStore h)
      → open_wallet os d main_config ≡ ok w
      → read_keystore os w d ≡ (file, d1)
      → FewAccounts w.password file
      → run_main h codec os hit kept d c s ≡ panic
  run_main-panics w file c s opened read few =
      let (km, c1, made, short) = new_keymanager-few w.password file c few in
      run_main-few w file km c c1 s opened read made short
