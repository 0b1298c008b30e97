-- ===== src/Bls/Signatures.antt =====
-- bls/herumi/signature.go and bls/signature_set.go. A signature and a public key are values here:
-- no function of these files changes one that it was given.
pub mod Acceptance
pub mod Sums
pub mod Aggregated
pub mod Multiplied
mod Examples
use eth_research.Base.{
  ℕ, zero, suc, ◌+◌, List, [], ◌∷◌, ◌++◌, Bool, true, false, not, ◌||◌, Option, none, some, ◌==◌,
  if◌then◌else◌, length, Outcome, done, ◌>>=◌, Result, ok, err,
}
use eth_research.Bytes.Integers.{bytes8}
use eth_research.Bls.Herumi.{Herumi}

pub data SignatureError : Type 0 where
  wrong_signature_length signature_unmarshal differing_lengths bad_scalar nil_public_key :
      SignatureError

-- The messages one after the other, as the loops append them.
unfoldable pub flatten : List (List ℕ) → List ℕ
flatten [] = []
flatten (m ∷ ms) = m ++ flatten ms

-- `SignatureSet`
pub record SignatureSet (P : Type 0) : Type 0 where
  pub signatures : List (List ℕ)
  pub public_keys : List P
  pub messages : List (List ℕ)

unfoldable pub new_set : {P : Type 0} → SignatureSet P
new_set = record { signatures = []; public_keys = []; messages = [] }

unfoldable pub join : {P : Type 0} → SignatureSet P → SignatureSet P → SignatureSet P
join s t = record {
  signatures = s.signatures ++ t.signatures;
  public_keys = s.public_keys ++ t.public_keys;
  messages = s.messages ++ t.messages;
}

module _ (h : Herumi) where
  open h use {
    Sign, PublicKey, Fr, deserialize_sign, public_key_is_zero, verify_byte,
    aggregate_verify_no_check, add_sign, set_little_endian, g2_mul_vec, g1_mul,
    hash_and_map_to_signature,
  }

  unfoldable pub signature_from_bytes : List ℕ → Result SignatureError Sign
  signature_from_bytes sig =
      if not (length sig == 96)
      then err wrong_signature_length
      else elim (deserialize_sign sig) [ none ↦ err signature_unmarshal | some s ↦ ok s ]

  -- `Signature.Verify`
  unfoldable pub verify : Sign → PublicKey → List ℕ → Bool
  verify s pub_key msg = if public_key_is_zero pub_key then false else verify_byte s pub_key msg

  -- `Signature.AggregateVerify`
  unfoldable pub aggregate_verify : Sign → List PublicKey → List (List ℕ) → Bool
  aggregate_verify s pub_keys msgs =
      if length pub_keys == 0
      then false
      else if not (length pub_keys == length msgs)
      then false
      else aggregate_verify_no_check s pub_keys (flatten msgs)

  -- `Signature.FastAggregateVerify`
  unfoldable pub fast_aggregate_verify : Sign → List PublicKey → List ℕ → Bool
  fast_aggregate_verify s pub_keys msg =
      if length pub_keys == 0 then false else h.fast_aggregate_verify s pub_keys msg

  -- `NewAggregateSignature`, of the bytes of "mock".
  unfoldable pub new_aggregate_signature : Sign
  new_aggregate_signature = hash_and_map_to_signature (109 ∷ 111 ∷ 99 ∷ 107 ∷ [])

  -- The loop of `AggregateSignatures`.
  unfoldable pub add_signs : Sign → List Sign → Sign
  add_signs signature [] = signature
  add_signs signature (s ∷ sigs) = add_signs (add_sign signature s) sigs

  -- `AggregateSignatures`, and `Aggregate`, its other name; `none` is nil.
  unfoldable pub aggregate_signatures : List Sign → Option Sign
  aggregate_signatures [] = none
  aggregate_signatures (s ∷ sigs) = some (add_signs s sigs)

  -- The random scalars of `VerifyMultipleSignatures`, one for each signature, from the numbers
  -- that the generator gives.
  unfoldable pub random_scalars : (ℕ → ℕ) → List Sign → Outcome (Result SignatureError (List Fr))
  random_scalars generator [] = done (ok [])
  random_scalars generator (s ∷ sigs) =
      let rest = random_scalars (λ i. generator (suc i)) sigs in
      do
        bytes ← bytes8 (generator 0)
        (elim (set_little_endian bytes) [
          | none ↦ done (err bad_scalar)
          | some r ↦ do more ← rest; done (elim more [ err e ↦ err e | ok rs ↦ ok (r ∷ rs) ])
        ])

  -- The keys, each multiplied by its scalar. A key can be nil.
  unfoldable pub multiply_keys :
      List (Option PublicKey) → List Fr → Result SignatureError (List PublicKey)
  multiply_keys (some p ∷ keys) (r ∷ rs) = elim (multiply_keys keys rs) [
    | err e ↦ err e
    | ok ps ↦ ok (g1_mul p r ∷ ps)
  ]
  multiply_keys (none ∷ keys) rs = err nil_public_key
  multiply_keys (some p ∷ keys) [] = ok []
  multiply_keys [] rs = ok []

  -- The part of `VerifyMultipleSignatures` after its checks of the lengths.
  unfoldable pub verify_multiplied :
      (ℕ → ℕ)
      → List Sign
      → List (List ℕ)
      → List (Option PublicKey)
      → Outcome (Result SignatureError Bool)
  verify_multiplied generator sigs msgs pub_keys = do
    scalars ← random_scalars generator sigs
    done (elim scalars [
      | err e ↦ err e
      | ok rs ↦ elim (multiply_keys pub_keys rs) [
        | err e ↦ err e
        | ok multi_keys ↦
            ok (aggregate_verify_no_check (g2_mul_vec sigs rs) multi_keys (flatten msgs))
      ]
    ])

  unfoldable pub verify_multiple_signatures :
      (ℕ → ℕ)
      → List Sign
      → List (List ℕ)
      → List (Option PublicKey)
      → Outcome (Result SignatureError Bool)
  verify_multiple_signatures generator sigs msgs pub_keys =
      if (length sigs == 0) || (length pub_keys == 0)
      then done (ok false)
      else if not (length sigs == length pub_keys) || not (length sigs == length msgs)
      then done (err differing_lengths)
      else verify_multiplied generator sigs msgs pub_keys
