-- ===== src/Wallet/Keymanager.antt =====
-- wallet/keymanager.go: the account store, the package's key caches, signing and verifying.
pub mod Filled
pub mod Filling
pub mod Signing
pub mod Shared
mod Examples
use eth_research.Base.{
  ℕ, zero, suc, ◌+◌, List, [], ◌∷◌, Bool, true, false, not, Option, none, some, ◌==◌, if◌then◌else◌,
  length, get_elem?, set, replicate, ltb, Outcome, done, panic, ◌>>=◌, Result, ok, err,
}
use eth_research.Base.Dict.{Dict, bytes_eq, lookup, insert}
use eth_research.Base.Text.{String}
use eth_research.Bytes.Slices.{to_bytes48}
use eth_research.Bls.Herumi.{Herumi}
use eth_research.Bls.Keys.{
  KeyError, KeyStore, Read, load, public_key_from_bytes, secret_key_from_bytes,
}
use eth_research.Bls.Signatures.{verify}
pub use eth_research.Wallet.Stored.{
  SlotInfo, new_slot_info, AccountStore, bytes_of, KeymanagerError, Encoded, Decrypted, Codec,
  Keymanager, empty_keymanager, cannot_read_keystore, cannot_decode_keystore, wrong_password,
  cannot_decrypt, cannot_decode_store, unequal_numbers, bad_disabled_key, nil_public_key,
  no_signing_key, failed_to_verify, in_key, no_files, read_failed, encoded, invalid_checksum,
  decrypt_failed, plain,
}

module _ (h : Herumi) where
  open h use {Sign, SecretKey, sign_byte}

  -- The variables `orderedPublicKeys` and `secretKeysCache` of the package.
  pub record Caches : Type 0 where
    pub ordered_public_keys : List (List ℕ)
    pub secret_keys : Dict (List ℕ) SecretKey

  -- The loop of `initializeKeysCachesFromKeystore`, from index `i` on.
  unfoldable pub cache_keys :
      ℕ
      → List (Option (List ℕ))
      → AccountStore
      → Caches
      → Outcome (Result KeymanagerError Bool × Caches)
  cache_keys i [] store c = done (ok true, c)
  cache_keys i (public_key ∷ rest) store c =
      let public_key48 = to_bytes48 (bytes_of public_key) in
      let c1 : Caches = record c {
        ordered_public_keys = set c.ordered_public_keys i public_key48;
      } in
      if not (ltb i (length c.ordered_public_keys))
      then panic
      else elim (get_elem? store.private_keys i) [
        | none ↦ panic
        | some private_key ↦ elim (secret_key_from_bytes h private_key) [
          | err e ↦ done (err (in_key e), c1)
          | ok secret_key ↦
              cache_keys (suc i) rest store
                (record c1 { secret_keys = insert public_key48 secret_key c1.secret_keys })
        ]
      ]

  unfoldable pub initialize_keys_caches_from_keystore :
      AccountStore → Caches → Outcome (Result KeymanagerError Bool × Caches)
  initialize_keys_caches_from_keystore store c = cache_keys 0 store.public_keys store (record {
    ordered_public_keys = replicate (length store.private_keys) (replicate 48 0);
    secret_keys = [];
  })

  module _ (codec : Codec) where
    open codec use {unmarshal_keystore, decrypt, unmarshal_store, hex_decode, slot_hash}

    -- The loop over `DisabledPublicKeys`.
    unfoldable pub disable :
        List String → Dict (List ℕ) Bool → Result KeymanagerError (Dict (List ℕ) Bool)
    disable [] disabled = ok disabled
    disable (pub_key ∷ rest) disabled = elim (hex_decode pub_key) [
      | none ↦ err bad_disabled_key
      | some key ↦ disable rest (insert (to_bytes48 key) true disabled)
    ]

    -- The part of `initializeAccountKeystore` after the keystore is decrypted.
    unfoldable pub use_store :
        List String
        → AccountStore
        → Keymanager
        → Caches
        → Outcome (Result KeymanagerError Keymanager × Caches)
    use_store disabled_keys store km c =
        if not (length store.public_keys == length store.private_keys)
        then done (err unequal_numbers, c)
        else if length store.public_keys == 0
        then done (ok km, c)
        else elim (disable disabled_keys km.disabled_public_keys) [
          | err e ↦ done (err e, c)
          | ok disabled ↦ do
            (res, c1) ← initialize_keys_caches_from_keystore store c
            done (
              elim res [
                | err e ↦ err e
                | ok b ↦ ok (record { accounts_store = store; disabled_public_keys = disabled })
              ],
              c1,
            )
        ]

    -- `initializeAccountKeystore`, from what `ReadFileAtPath` answers on.
    unfoldable pub initialize_account_keystore :
        Encoded
        → String
        → Keymanager
        → Caches
        → Outcome (Result KeymanagerError Keymanager × Caches)
    initialize_account_keystore no_files password km c = done (ok km, c)
    initialize_account_keystore read_failed password km c = done (err cannot_read_keystore, c)
    initialize_account_keystore (encoded bytes) password km c = elim (unmarshal_keystore bytes) [
      | none ↦ done (err cannot_decode_keystore, c)
      | some (crypto, disabled_keys) ↦ elim (decrypt crypto password) [
        | invalid_checksum ↦ done (err wrong_password, c)
        | decrypt_failed ↦ done (err cannot_decrypt, c)
        | plain enc ↦ elim (unmarshal_store enc) [
          | none ↦ done (err cannot_decode_store, c)
          | some store ↦ use_store disabled_keys store km c
        ]
      ]
    ]

    -- `NewKeymanager`
    unfoldable pub new_keymanager :
        Encoded → String → Caches → Outcome (Result KeymanagerError Keymanager × Caches)
    new_keymanager file password c = initialize_account_keystore file password empty_keymanager c

    -- `Keymanager.Sign`
    unfoldable pub sign : Keymanager → Caches → SlotInfo → ℕ → Outcome (Result KeymanagerError Sign)
    sign km c slot_info pub_key_index =
        elim (get_elem? km.accounts_store.public_keys pub_key_index) [
          | none ↦ panic
          | some none ↦ done (err nil_public_key)
          | some (some public_key) ↦ elim (lookup (to_bytes48 public_key) c.secret_keys) [
            | none ↦ done (err no_signing_key)
            | some secret_key ↦ done (ok (sign_byte secret_key (slot_hash slot_info)))
          ]
        ]

    -- `Keymanager.VerifySignature`, where the first arguments are what the cache of public keys
    -- does in it.
    unfoldable pub verify_signature :
        Bool
        → Bool
        → Keymanager
        → SlotInfo
        → ℕ
        → Sign
        → KeyStore h
        → Outcome (Result KeymanagerError Bool × KeyStore h)
    verify_signature hit kept km slot_info pub_key_index signature s =
        elim (get_elem? km.accounts_store.public_keys pub_key_index) [
          | none ↦ panic
          | some public ↦ do
            let read : Read h = record { bytes = bytes_of public; hit = hit; kept = kept }
            (key, s1) ← public_key_from_bytes h read s
            (elim key [
              | err e ↦ done (err (in_key e), s1)
              | ok a ↦ do
                p ← load h a s1
                done (
                  if not (verify h signature p (slot_hash slot_info))
                      then err failed_to_verify
                      else ok true,
                  s1,
                )
            ])
        ]
