-- ===== src/Bls/Signatures/Aggregated.antt =====
-- bls/herumi/signature.go: the aggregate of signatures that verify one by one.
use eth_research.Base.{
  ℕ, suc, ◌≡◌, refl, ap, ◌∙◌, List, [], ◌∷◌, true, some, length, map, All, arith,
}
use eth_research.Bls.Herumi.{Herumi}
use eth_research.Bls.Signatures.{
  flatten, verify, aggregate_verify, fast_aggregate_verify, add_signs, aggregate_signatures,
}

-- The values of keys at messages, added to `t` one after the other.
unfoldable pub gather :
    {T P : Type 0} → (T → T → T) → (P → List ℕ → T) → T → List P → List (List ℕ) → T
gather plus of_key t [] ms = t
gather plus of_key t (p ∷ ps) [] = t
gather plus of_key t (p ∷ ps) (m ∷ ms) = gather plus of_key (plus t (of_key p m)) ps ms

-- The equations of pairings that the checks of herumi decide: a signature and a key at a message
-- have values in a group, the value of a sum is the sum of the values, and a check compares the
-- value of the signature with the values of the keys at their messages, of 32 bytes where they
-- come one after the other.
pub record Pairing (h : Herumi) : Type 1 where
  pub Target : Type 0
  pub plus : Target → Target → Target
  pub of_sign : h.Sign → Target
  pub of_key : h.PublicKey → List ℕ → Target
  pub of_sign-add : (s t : h.Sign) → of_sign (h.add_sign s t) ≡ plus (of_sign s) (of_sign t)
  pub verified :
      (s : h.Sign) (p : h.PublicKey) (m : List ℕ)
      → h.verify_byte s p m ≡ true
      → of_sign s ≡ of_key p m
  pub accepted :
      (s : h.Sign) (p : h.PublicKey) (ps : List h.PublicKey) (m : List ℕ) (ms : List (List ℕ))
      → length ps ≡ length ms
      → All (λ (x : List ℕ). length x ≡ 32) (m ∷ ms)
      → of_sign s ≡ gather plus of_key (of_key p m) ps ms
      → h.aggregate_verify_no_check s (p ∷ ps) (flatten (m ∷ ms)) ≡ true
  pub fast_accepted :
      (s : h.Sign) (p : h.PublicKey) (ps : List h.PublicKey) (m : List ℕ)
      → of_sign s ≡ gather plus of_key (of_key p m) ps (map (λ q. m) ps)
      → h.fast_aggregate_verify s (p ∷ ps) m ≡ true

-- A signature with the key and the message that it is for.
pub record Signed (h : Herumi) : Type 0 where
  pub signature : h.Sign
  pub key : h.PublicKey
  pub message : List ℕ

module _ (h : Herumi) (pairing : Pairing h) where
  open h use {Sign, PublicKey}
  open pairing use {Target, plus, of_sign, of_key}

  -- It verifies, and its message has 32 bytes.
  abbrev pub IsVerified : Signed h → Type 0
  IsVerified x = (verify h x.signature x.key x.message ≡ true) × (length x.message ≡ 32)

  pub verified_value :
      (x : Signed h)
      → verify h x.signature x.key x.message ≡ true
      → of_sign x.signature ≡ of_key x.key x.message
  unfolding verify
  verified_value x ok = pairing.verified x.signature x.key x.message (ground (arith, ok))

  abbrev signs : List (Signed h) → List Sign
  signs xs = map (λ (x : Signed h). x.signature) xs

  abbrev keys : List (Signed h) → List PublicKey
  keys xs = map (λ (x : Signed h). x.key) xs

  abbrev messages : List (Signed h) → List (List ℕ)
  messages xs = map (λ (x : Signed h). x.message) xs

  add_signs_value :
      (s : Sign) (xs : List (Signed h))
      → All IsVerified xs
      → of_sign (add_signs h s (signs xs)) ≡ gather plus of_key (of_sign s) (keys xs) (messages xs)
  unfolding add_signs gather
  add_signs_value s [] all = refl
  add_signs_value s (x ∷ xs) all =
      let value =
        pairing.of_sign-add s x.signature ∙ ap (plus (of_sign s)) (verified_value x all.0.0) in
      add_signs_value (h.add_sign s x.signature) xs all.1
      ∙ ap (λ t. gather plus of_key t (keys xs) (messages xs)) value

  length-keys : (xs : List (Signed h)) → length (keys xs) ≡ length (messages xs)
  length-keys [] = refl
  length-keys (x ∷ xs) = ap suc (length-keys xs)

  messages-All :
      (xs : List (Signed h)) → All IsVerified xs → All (λ (m : List ℕ). length m ≡ 32) (messages xs)
  messages-All [] all = tt
  messages-All (x ∷ xs) all = (all.0.1, messages-All xs all.1)

  -- Over the equations of pairings: of at least one signature, each of which verifies under its key
  -- for its message of 32 bytes, the aggregate passes `AggregateVerify` with these keys and messages.
  pub aggregate_verify-aggregate_signatures :
      (x : Signed h) (xs : List (Signed h))
      → All IsVerified (x ∷ xs)
      → (total : Sign) × (aggregate_signatures h (signs (x ∷ xs)) ≡ some total)
        × (aggregate_verify h total (keys (x ∷ xs)) (messages (x ∷ xs)) ≡ true)
  unfolding aggregate_signatures aggregate_verify
  aggregate_verify-aggregate_signatures x xs all =
      let value =
        add_signs_value x.signature xs all.1
        ∙ ap (λ t. gather plus of_key t (keys xs) (messages xs)) (verified_value x all.0.0) in
      let passes =
        pairing.accepted (add_signs h x.signature (signs xs)) x.key (keys xs) x.message
          (messages xs) (length-keys xs) (messages-All (x ∷ xs) all) value in
      (add_signs h x.signature (signs xs), refl, ground (arith, passes, length-keys xs))

  same_messages :
      (m : List ℕ) (xs : List (Signed h))
      → All (λ (x : Signed h). x.message ≡ m) xs
      → messages xs ≡ map (λ q. m) (keys xs)
  same_messages m [] all = refl
  same_messages m (x ∷ xs) all = rw (all.0, same_messages m xs all.1) refl

  -- Over the equations of pairings: of at least one signature, each of which verifies under its key
  -- for one message of 32 bytes, the aggregate passes `FastAggregateVerify` with these keys.
  pub fast_aggregate_verify-aggregate_signatures :
      (m : List ℕ) (x : Signed h) (xs : List (Signed h))
      → All IsVerified (x ∷ xs)
      → All (λ (y : Signed h). y.message ≡ m) (x ∷ xs)
      → (total : Sign) × (aggregate_signatures h (signs (x ∷ xs)) ≡ some total)
        × (fast_aggregate_verify h total (keys (x ∷ xs)) m ≡ true)
  unfolding aggregate_signatures fast_aggregate_verify
  fast_aggregate_verify-aggregate_signatures m x xs all same =
      let first = verified_value x all.0.0 ∙ ap (of_key x.key) same.0 in
      let value =
        add_signs_value x.signature xs all.1
        ∙ ap (λ t. gather plus of_key t (keys xs) (messages xs)) first
        ∙ ap (gather plus of_key (of_key x.key m) (keys xs)) (same_messages m xs same.1) in
      let passes =
        pairing.fast_accepted (add_signs h x.signature (signs xs)) x.key (keys xs) m value in
      (add_signs h x.signature (signs xs), refl, ground (arith, passes))
