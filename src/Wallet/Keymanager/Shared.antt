-- ===== src/Wallet/Keymanager/Shared.antt =====
-- wallet/keymanager.go: the caches belong to the package, so a new keymanager replaces those of the
-- keymanagers before it.
use eth_research.Base.{
  ℕ, suc, ◌<◌, ◌≡◌, ◌≢◌, refl, sym, ap, ◌∙◌, inl, inr, ◌⊎◌, List, [], ◌∷◌, Bool, false, Option,
  none, some, ◌==◌, length, get_elem?, ltb, arith, Bool-cases, Option-cases, Outcome, done, panic,
  ◌>>=◌, Result, Result-cases, ok, err,
}
use eth_research.Base.Dict.{Dict, bytes_eq, bytes_beq, bytes_beq_iff, lookup, insert, lookup-insert}
use eth_research.Base.Text.{String}
use eth_research.Bytes.Slices.{to_bytes48}
use eth_research.Bls.Herumi.{Herumi}
use eth_research.Bls.Keys.{secret_key_from_bytes}
use eth_research.Wallet.Keymanager.Filled.{name_of, added}
use eth_research.Wallet.Keymanager.{
  SlotInfo, AccountStore, bytes_of, KeymanagerError, Encoded, Decrypted, Codec, Keymanager,
  empty_keymanager, no_signing_key, no_files, read_failed, encoded, invalid_checksum,
  decrypt_failed, plain, Caches, cache_keys, initialize_keys_caches_from_keystore, disable,
  use_store, initialize_account_keystore, new_keymanager, sign,
}

-- No key of these has the name `b`.
abbrev pub Unlisted : List ℕ → List (Option (List ℕ)) → Type 0
Unlisted b public_keys =
    (j : ℕ) (p : Option (List ℕ)) → get_elem? public_keys j ≡ some p → to_bytes48 (bytes_of p) ≢ b

Decrypted-cases :
    (d : Decrypted)
    → (d ≡ invalid_checksum) ⊎ ((d ≡ decrypt_failed) ⊎ ((enc : List ℕ) × (d ≡ plain enc)))
Decrypted-cases invalid_checksum = inl refl
Decrypted-cases decrypt_failed = inr (inl refl)
Decrypted-cases (plain enc) = inr (inr (enc, refl))

unlike : (b name : List ℕ) → name ≢ b → bytes_beq b name ≡ false
unlike b name apart = elim (Bool-cases (bytes_beq b name)) [
  | inl same ↦ absurd (apart (sym ((bytes_beq_iff b name).0 same)))
  | inr other ↦ other
]

module _ (h : Herumi) where
  -- The loop gives secret keys only to the names of its public keys.
  cache_keys-lookup :
      (b : List ℕ) (i : ℕ) (rest : List (Option (List ℕ))) (store : AccountStore) (c c' : Caches h)
      (res : Result KeymanagerError Bool)
      → Unlisted b rest
      → lookup b c.secret_keys ≡ none
      → cache_keys h i rest store c ≡ done (res, c')
      → lookup b c'.secret_keys ≡ none
  unfolding cache_keys
  cache_keys-lookup b i [] store c c' res new absent run =
      let is : c ≡ c' = cc in rw (sym is) absent
  cache_keys-lookup b i (p ∷ rest) store c c' res new absent run =
      elim (Bool-cases (ltb i (length c.ordered_public_keys))) [
        | inr past ↦ ground (arith, past, run)
        | inl low ↦ elim (Option-cases (get_elem? store.private_keys i)) [
          | inl missing ↦ ground (arith, low, missing, run)
          | inr (private_key, there) ↦ elim (Result-cases (secret_key_from_bytes h private_key)) [
            | inl (e, bad) ↦
                let kept : c'.secret_keys ≡ c.secret_keys = ground (arith, low, there, bad, run) in
                rw kept absent
            | inr (k, good) ↦
                let step : cache_keys h i (p ∷ rest) store c
                    ≡ cache_keys h (suc i) rest store (added h i p k c) =
                  ground (arith, low, there, good) in
                let apart : bytes_beq b (name_of h p) ≡ false =
                  unlike b (name_of h p) (new 0 p refl) in
                let still : lookup b (insert (name_of h p) k c.secret_keys) ≡ none =
                  lookup-insert b (name_of h p) k c.secret_keys ∙ rw apart absent in
                cache_keys-lookup b (suc i) rest store (added h i p k c) c' res (λ j. new (suc j))
                  still (sym step ∙ run)
          ]
        ]
      ]

  -- What `use_store` makes of the filling of the caches.
  abbrev after_fill :
      AccountStore
      → Dict (List ℕ) Bool
      → Outcome (Result KeymanagerError Bool × Caches h)
      → Outcome (Result KeymanagerError Keymanager × Caches h)
  after_fill store disabled fill = do
    (res, c1) ← fill
    done (
      elim res [
        | err e ↦ err e
        | ok b ↦ ok (record { accounts_store = store; disabled_public_keys = disabled })
      ],
      c1,
    )

  after_fill-done :
      (store : AccountStore) (disabled : Dict (List ℕ) Bool) (km2 : Keymanager) (c2 : Caches h)
      (fill : Outcome (Result KeymanagerError Bool × Caches h))
      → after_fill store disabled fill ≡ done (ok km2, c2)
      → (res : Result KeymanagerError Bool) × (fill ≡ done (res, c2)) × (km2.accounts_store ≡ store)
  after_fill-done store disabled km2 c2 panic run = cc
  after_fill-done store disabled km2 c2 (done (err e, c1)) run = cc
  after_fill-done store disabled km2 c2 (done (ok b, c1)) run =
      let same : c1 ≡ c2 = cc in
      let is : record { accounts_store = store; disabled_public_keys = disabled } ≡ km2 = cc in
      (ok b, rw same refl, ap (λ (k : Keymanager). k.accounts_store) (sym is))

  filling-lookup :
      {b : List ℕ} (store : AccountStore) (c c2 : Caches h) (res : Result KeymanagerError Bool)
      → Unlisted b store.public_keys
      → initialize_keys_caches_from_keystore h store c ≡ done (res, c2)
      → lookup b c2.secret_keys ≡ none
  unfolding initialize_keys_caches_from_keystore lookup
  filling-lookup {b} store c c2 res new filled =
      cache_keys-lookup b 0 store.public_keys store _ c2 res new refl filled

  module _ (codec : Codec) (b : List ℕ) where
    -- A new keymanager that holds keys has replaced the caches.
    use_store-lookup :
        (disabled_keys : List String) (store : AccountStore) (km2 : Keymanager) (c c2 : Caches h)
        → 0 < length km2.accounts_store.public_keys
        → Unlisted b km2.accounts_store.public_keys
        → use_store h codec disabled_keys store empty_keymanager c ≡ done (ok km2, c2)
        → lookup b c2.secret_keys ≡ none
    unfolding use_store
    use_store-lookup disabled_keys store km2 c c2 some_keys new run =
        elim (Bool-cases (length store.public_keys == length store.private_keys)) [
          | inr differ ↦ ground (arith, differ, run)
          | inl same ↦ elim (Bool-cases (length store.public_keys == 0)) [
            | inl no_keys ↦
                let is : empty_keymanager ≡ km2 = ground (arith, same, no_keys, run) in
                absurd (
                  omega (
                    arith,
                    some_keys,
                    ap (λ (k : Keymanager). length k.accounts_store.public_keys) is,
                  ))
            | inr keys ↦ elim (Result-cases (disable h codec disabled_keys [])) [
              | inl (e, bad) ↦ ground (arith, same, keys, bad, run)
              | inr (disabled, good) ↦
                  let fill = initialize_keys_caches_from_keystore h store c in
                  let rest : after_fill store disabled fill ≡ done (ok km2, c2) =
                    ground (arith, same, keys, good, run) in
                  let (res, filled, is) = after_fill-done store disabled km2 c2 fill rest in
                  let unlisted : Unlisted b store.public_keys = rw is at new in
                  filling-lookup store c c2 res unlisted filled
            ]
          ]
        ]

    -- Where `NewKeymanager` answers with a keymanager that holds keys, the package has no secret key
    -- for a name that this one does not list.
    new_keymanager-lookup :
        (file : Encoded) (password : String) (km2 : Keymanager) (c c2 : Caches h)
        → 0 < length km2.accounts_store.public_keys
        → Unlisted b km2.accounts_store.public_keys
        → new_keymanager h codec file password c ≡ done (ok km2, c2)
        → lookup b c2.secret_keys ≡ none
    unfolding new_keymanager initialize_account_keystore
    new_keymanager-lookup no_files password km2 c c2 some_keys new run =
        let is : empty_keymanager ≡ km2 = cc in
        absurd (
          omega (arith, some_keys, ap (λ (k : Keymanager). length k.accounts_store.public_keys) is))
    new_keymanager-lookup read_failed password km2 c c2 some_keys new run = cc
    new_keymanager-lookup (encoded bytes) password km2 c c2 some_keys new run =
        elim (Option-cases (codec.unmarshal_keystore bytes)) [
          | inl bad ↦ ground (arith, bad, run)
          | inr ((crypto, disabled_keys), good) ↦
              elim (Decrypted-cases (codec.decrypt crypto password)) [
                | inl wrong ↦ ground (arith, good, wrong, run)
                | inr (inl failed) ↦ ground (arith, good, failed, run)
                | inr (inr (enc, fine)) ↦ elim (Option-cases (codec.unmarshal_store enc)) [
                  | inl bad ↦ ground (arith, good, fine, bad, run)
                  | inr (store, read) ↦
                      use_store-lookup disabled_keys store km2 c c2 some_keys new
                        (ground (arith, good, fine, read, run))
                ]
              ]
        ]

  -- Once `NewKeymanager` has answered with a keymanager that holds keys, `Sign` of any keymanager,
  -- also of one made before, refuses each key that the new one does not list.
  pub sign-new_keymanager :
      (codec : Codec) (file : Encoded) (password : String) (km km2 : Keymanager) (c c2 : Caches h)
      (slot_info : SlotInfo) (i : ℕ) (public_key : List ℕ)
      → 0 < length km2.accounts_store.public_keys
      → new_keymanager h codec file password c ≡ done (ok km2, c2)
      → get_elem? km.accounts_store.public_keys i ≡ some (some public_key)
      → Unlisted (to_bytes48 public_key) km2.accounts_store.public_keys
      → sign h codec km c2 slot_info i ≡ done (err no_signing_key)
  unfolding sign
  sign-new_keymanager codec file password km km2 c c2 slot_info i public_key some_keys made here
        new =
      let absent =
        new_keymanager-lookup codec (to_bytes48 public_key) file password km2 c c2 some_keys new
          made in
      rw (sign, here, absent) refl
