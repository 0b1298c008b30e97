-- ===== src/Wallet/Keymanager/Filling.antt =====
-- wallet/keymanager.go: what the caches hold when they are filled from an account store.
use mathlib.Core.Path.{subst}
use eth_research.Base.{
  ℕ, suc, ◌+◌, ◌<◌, ◌≡◌, refl, sym, ap, ◌∙◌, inl, inr, ◌⊎◌, List, [], ◌∷◌, Bool, true, Option, some,
  length, get_elem?, get_elem?-lt, replicate, length-replicate, set, arith, Outcome, done, Result,
  Result-cases, ok, err,
}
use eth_research.Base.Dict.{bytes_eq, lookup}
use eth_research.Bls.Herumi.{Herumi}
use eth_research.Bls.Keys.{KeyError, secret_key_from_bytes}
use eth_research.Wallet.Keymanager.{
  AccountStore, in_key, KeymanagerError, Caches, cache_keys, initialize_keys_caches_from_keystore,
}
use eth_research.Wallet.Keymanager.Filled.{name_of, IsPaired, Filled, added, fill_step}

module _ (h : Herumi) where
  open h use {SecretKey}

  module _ (store : AccountStore) (i : ℕ) (p : Option (List ℕ)) (rest : List (Option (List ℕ)))
      (c : Caches h) (private_key : List ℕ) where
    step_bad :
        (e : KeyError)
        → i < length c.ordered_public_keys
        → get_elem? store.private_keys i ≡ some private_key
        → secret_key_from_bytes h private_key ≡ err e
        → cache_keys h i (p ∷ rest) store c
          ≡ done (
            err (in_key e),
            record c { ordered_public_keys = set c.ordered_public_keys i (name_of h p) },
          )
    unfolding cache_keys
    step_bad e low secret bad = ground (arith, low, secret, bad)

    step_good :
        (k : SecretKey)
        → i < length c.ordered_public_keys
        → get_elem? store.private_keys i ≡ some private_key
        → secret_key_from_bytes h private_key ≡ ok k
        → cache_keys h i (p ∷ rest) store c ≡ cache_keys h (suc i) rest store (added h i p k c)
    unfolding cache_keys
    step_good k low secret good = ground (arith, low, secret, good)

  -- How the loop ends: with the caches of the keys below `n`, or at a private key that is none.
  abbrev pub Ends : AccountStore → ℕ → Outcome (Result KeymanagerError Bool × Caches h) → Type 0
  Ends store n run =
      ((c : Caches h) × (run ≡ done (ok true, c)) × Filled h store n c)
      ⊎ ((e : KeyError) × ((c : Caches h) × ((j : ℕ) × ((private_key : List ℕ) × (run
                  ≡ done (err (in_key e), c))
                × (get_elem? store.private_keys j ≡ some private_key)
                × (secret_key_from_bytes h private_key ≡ err e)))))

  -- The loop from index `i` on, over the keys of the store that are left.
  cache_keys_lem :
      (store : AccountStore) (rest : List (Option (List ℕ))) (i : ℕ) (c : Caches h)
      → IsPaired h store
      → ((j : ℕ) → get_elem? rest j ≡ get_elem? store.public_keys (i + j))
      → i + length rest ≡ length store.private_keys
      → Filled h store i c
      → Ends store (length store.private_keys) (cache_keys h i rest store c)
  unfolding cache_keys
  cache_keys_lem store [] i c pairs left n f =
      let all : i ≡ length store.private_keys = omega (arith, n) in inl (c, refl, rw (sym all) f)
  cache_keys_lem store (p ∷ rest) i c pairs left n f =
      let (private_key, secret) = get_elem?-lt store.private_keys i (omega (arith, n)) in
      let low : i < length c.ordered_public_keys = omega (arith, n, f.size) in
      elim (Result-cases (secret_key_from_bytes h private_key)) [
        | inl (e, bad) ↦ inr (
          e,
          (
            record c { ordered_public_keys = set c.ordered_public_keys i (name_of h p) },
            (i, (private_key, step_bad store i p rest c private_key e low secret bad, secret, bad)),
          ),
        )
        | inr (k, good) ↦
            let here : get_elem? store.public_keys i ≡ some p =
              ap (λ (x : ℕ). get_elem? store.public_keys x) {x = i} {y = i + 0} (omega arith)
              ∙ sym (left 0) in
            let next = fill_step h store i p private_key k c pairs f here secret good in
            let shifted : (j : ℕ) → get_elem? rest j ≡ get_elem? store.public_keys (suc i + j) =
              λ j.
                left (suc j)
                ∙ ap (λ (x : ℕ). get_elem? store.public_keys x) {x = i + suc j} {y = suc i + j}
                    (omega arith) in
            let ends =
              cache_keys_lem store rest (suc i) (added h i p k c) pairs shifted (omega (arith, n))
                next in
            subst (Ends store (length store.private_keys))
              (sym (step_good store i p rest c private_key k low secret good)) ends
      ]

  -- Where the store has as many private as public keys, each public key that of its private key,
  -- `initializeKeysCachesFromKeystore` does not panic. It fills the caches, so that every key of the
  -- store is listed in order and has a secret key, and each secret key stands under its own public
  -- key. Or it returns the error of a private key of the store that is not accepted.
  pub initialize_keys_caches_from_keystore_lem :
      (store : AccountStore) (c : Caches h)
      → IsPaired h store
      → length store.public_keys ≡ length store.private_keys
      → Ends store (length store.private_keys) (initialize_keys_caches_from_keystore h store c)
  unfolding initialize_keys_caches_from_keystore lookup
  initialize_keys_caches_from_keystore_lem store c pairs same =
      cache_keys_lem store store.public_keys 0
        (record {
          ordered_public_keys = replicate (length store.private_keys) (replicate 48 0);
          secret_keys = [];
        })
        pairs (λ j. ap (λ (x : ℕ). get_elem? store.public_keys x) {x = j} {y = 0 + j} (omega arith))
        (omega (arith, same))
        (record {
          size = length-replicate (length store.private_keys) (replicate 48 0);
          order = λ i p lt e. absurd (omega arith);
          present = λ i p lt e. absurd (omega arith);
          owner = λ b k e. cc;
        })
