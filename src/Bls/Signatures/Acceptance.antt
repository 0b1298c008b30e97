-- ===== src/Bls/Signatures/Acceptance.antt =====
-- bls/herumi/signature.go: what an accepted set of signatures has gone through.
use eth_research.Base.{
  ℕ, suc, ◌<◌, ◌≡◌, ◌≢◌, refl, sym, ap, ◌∙◌, inl, inr, ◌⊎◌, List, [], ◌∷◌, true, Option, none, some,
  length, length-map, map, arith, Option-cases, done, ◌>>=◌, ok, err,
}
use eth_research.Bytes.Integers.{le_bytes}
use eth_research.Bytes.Integers.Digits.{length-le_bytes}
use eth_research.Bytes.Integers.RoundTrip.{bytes8-le_bytes}
use eth_research.Bls.Herumi.{Herumi}
use eth_research.Bls.Signatures.{
  bad_scalar, nil_public_key, flatten, random_scalars, multiply_keys, verify_multiplied,
  verify_multiple_signatures,
}

module _ (h : Herumi) where
  open h use {Sign, PublicKey, Fr, set_little_endian, aggregate_verify_no_check, g2_mul_vec, g1_mul}

  -- The scalars are those of the first numbers of the generator.
  unfoldable pub AreScalars : (ℕ → ℕ) → List Fr → Type 0
  AreScalars generator [] = Unit
  AreScalars generator (r ∷ rs) =
      (set_little_endian (le_bytes 8 (generator 0)) ≡ some r)
      × AreScalars (λ i. generator (suc i)) rs

  -- The keys, each times its scalar.
  unfoldable pub products : List PublicKey → List Fr → List PublicKey
  products [] rs = []
  products (p ∷ ps) [] = []
  products (p ∷ ps) (r ∷ rs) = g1_mul p r ∷ products ps rs

  scalars_more :
      (s : Sign) (sigs : List Sign) (generator : ℕ → ℕ) (r : Fr)
      → set_little_endian (le_bytes 8 (generator 0)) ≡ some r
      → random_scalars h generator (s ∷ sigs) ≡ (
          random_scalars h (λ i. generator (suc i)) sigs >>= λ more.
          done (elim more [ err e ↦ err e | ok rs ↦ ok (r ∷ rs) ]))
  unfolding random_scalars
  scalars_more s sigs generator r e = rw (random_scalars, bytes8-le_bytes (generator 0), e) refl

  scalars_bad :
      (s : Sign) (sigs : List Sign) (generator : ℕ → ℕ)
      → set_little_endian (le_bytes 8 (generator 0)) ≡ none
      → random_scalars h generator (s ∷ sigs) ≡ done (err bad_scalar)
  unfolding random_scalars
  scalars_bad s sigs generator e = rw (random_scalars, bytes8-le_bytes (generator 0), e) refl

  -- The loop never panics. It fails on 8 bytes that are no scalar, or has used the first numbers
  -- of the generator.
  random_scalars_cases :
      (sigs : List Sign) (generator : ℕ → ℕ)
      → ((random_scalars h generator sigs ≡ done (err bad_scalar))
          × ((b : List ℕ) × (length b ≡ 8) × (set_little_endian b ≡ none)))
        ⊎ ((rs : List Fr) × (random_scalars h generator sigs ≡ done (ok rs))
            × AreScalars generator rs
            × (length rs ≡ length sigs))
  unfolding random_scalars AreScalars
  random_scalars_cases [] generator = inr ([], refl, tt, refl)
  random_scalars_cases (s ∷ sigs) generator =
      let b = le_bytes 8 (generator 0) in
      elim (Option-cases (set_little_endian b)) [
        | inl bad ↦
            inl (scalars_bad s sigs generator bad, (b, length-le_bytes 8 (generator 0), bad))
        | inr (r, good) ↦
            let more = scalars_more s sigs generator r good in
            elim (random_scalars_cases sigs (λ i. generator (suc i))) [
              | inl (failed, why) ↦ inl (more ∙ rw failed refl, why)
              | inr (rs, e, are, l) ↦ inr (r ∷ rs, more ∙ rw e refl, (good, are), ap suc l)
            ]
      ]

  products_lem :
      (qs : List PublicKey) (rs : List Fr)
      → length qs ≡ length rs
      → multiply_keys h (map some qs) rs ≡ ok (products qs rs)
  unfolding multiply_keys products
  products_lem [] rs l = refl
  products_lem (p ∷ qs) [] l = absurd (omega (arith, l))
  products_lem (p ∷ qs) (r ∷ rs) l = rw (products_lem qs rs (omega (arith, l))) refl

  -- Where every 8 bytes are a scalar, and there are as many signatures as messages and keys, none
  -- of these nil, and not none at all, `VerifyMultipleSignatures` returns what the check of the
  -- combined signature against the keys and the messages says, where signature and key i are
  -- multiplied by the scalar of random number i.
  pub verify_multiple_signatures_lem :
      (fits : (b : List ℕ) → length b ≡ 8 → set_little_endian b ≢ none) (generator : ℕ → ℕ)
      (sigs : List Sign) (msgs : List (List ℕ)) (qs : List PublicKey)
      → 0 < length sigs
      → length qs ≡ length sigs
      → length msgs ≡ length sigs
      → (rs : List Fr) × AreScalars generator rs
        × (length rs ≡ length sigs)
        × (verify_multiple_signatures h generator sigs msgs (map some qs)
            ≡ done (
                ok
                  (aggregate_verify_no_check (g2_mul_vec sigs rs) (products qs rs) (flatten msgs))))
  unfolding verify_multiple_signatures verify_multiplied
  verify_multiple_signatures_lem fits generator sigs msgs qs some_sig ql ml =
      elim (random_scalars_cases sigs generator) [
        | inl (failed, (b, b8, bad)) ↦ absurd (fits b b8 bad)
        | inr (rs, e, are, l) ↦
            let keys = products_lem qs rs (ql ∙ sym l) in
            let kl = length-map some qs in (rs, are, l, ground (arith, e, keys, kl))
      ]

  multiply_keys_lem :
      (keys : List (Option PublicKey)) (rs : List Fr)
      → length keys ≡ length rs
      → (multiply_keys h keys rs ≡ err nil_public_key)
        ⊎ ((qs : List PublicKey) × (keys ≡ map some qs)
            × (multiply_keys h keys rs ≡ ok (products qs rs)))
  unfolding multiply_keys products
  multiply_keys_lem [] rs l = inr ([], refl, refl)
  multiply_keys_lem (none ∷ keys) rs l = inl refl
  multiply_keys_lem (some p ∷ keys) [] l = absurd (omega (arith, l))
  multiply_keys_lem (some p ∷ keys) (r ∷ rs) l =
      elim (multiply_keys_lem keys rs (omega (arith, l))) [
        | inl e ↦ inl (rw e refl)
        | inr (qs, same, e) ↦ inr (p ∷ qs, ap (λ ks. some p ∷ ks) same, rw e refl)
      ]

  sizes :
      (generator : ℕ → ℕ) (sigs : List Sign) (msgs : List (List ℕ)) (keys : List (Option PublicKey))
      → verify_multiple_signatures h generator sigs msgs keys ≡ done (ok true)
      → (0 < length sigs)
        × (length keys ≡ length sigs)
        × (length msgs ≡ length sigs)
        × (verify_multiplied h generator sigs msgs keys ≡ done (ok true))
  unfolding verify_multiple_signatures
  sizes generator sigs msgs keys e = ground (arith, e)

  multiplied_present :
      (generator : ℕ → ℕ) (sigs : List Sign) (msgs : List (List ℕ)) (keys : List (Option PublicKey))
      → length keys ≡ length sigs
      → verify_multiplied h generator sigs msgs keys ≡ done (ok true)
      → (qs : List PublicKey) × (keys ≡ map some qs)
  unfolding verify_multiplied
  multiplied_present generator sigs msgs keys kl e = elim (random_scalars_cases sigs generator) [
    | inl (failed, why) ↦ ground (arith, e, failed)
    | inr (rs, scalars, are, l) ↦ elim (multiply_keys_lem keys rs (kl ∙ sym l)) [
      | inl failed ↦ ground (arith, e, failed, scalars)
      | inr (qs, same, _) ↦ (qs, same)
    ]
  ]

  -- A call of `VerifyMultipleSignatures` that returns true had as many keys and messages as
  -- signatures, at least one, and no nil key.
  pub verify_multiple_signatures_accepts :
      (generator : ℕ → ℕ) (sigs : List Sign) (msgs : List (List ℕ)) (keys : List (Option PublicKey))
      → verify_multiple_signatures h generator sigs msgs keys ≡ done (ok true)
      → (0 < length sigs)
        × (length keys ≡ length sigs)
        × (length msgs ≡ length sigs)
        × ((qs : List PublicKey) × (keys ≡ map some qs))
  unfolding verify_multiple_signatures
  verify_multiple_signatures_accepts generator sigs msgs keys e =
      let (some_sig, kl, ml, e1) = sizes generator sigs msgs keys e in
      (some_sig, kl, ml, multiplied_present generator sigs msgs keys kl e1)
