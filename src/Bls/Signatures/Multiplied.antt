-- ===== src/Bls/Signatures/Multiplied.antt =====
-- bls/herumi/signature.go: which signatures `VerifyMultipleSignatures` accepts.
use eth_research.Base.{
  ℕ, suc, ◌≡◌, ◌≢◌, ◌↔◌, refl, sym, ap, ◌∙◌, List, [], ◌∷◌, Bool, true, none, some, length,
  length-map, map, All, arith, Outcome, panic, done, Result, ok, err, false,
}
use eth_research.Bls.Herumi.{Herumi}
use eth_research.Bls.Signatures.{SignatureError, flatten, verify_multiple_signatures}
use eth_research.Bls.Signatures.Acceptance.{AreScalars, products, verify_multiple_signatures_lem}
use eth_research.Bls.Signatures.Aggregated.{gather, Pairing, Signed, IsVerified, verified_value}

-- Values times scalars, added to `t` one after the other.
unfoldable pub weigh : {T F : Type 0} → (T → T → T) → (F → T → T) → T → List T → List F → T
weigh plus scale t [] rs = t
weigh plus scale t (v ∷ vs) [] = t
weigh plus scale t (v ∷ vs) (r ∷ rs) = weigh plus scale (plus t (scale r v)) vs rs

-- What pairings say of products: the value of a key times a scalar, and of a sum of signatures times
-- scalars. The check says no more than that its equation holds.
pub record Scaling (h : Herumi) (pairing : Pairing h) : Type 0 where
  pub scale : h.Fr → pairing.Target → pairing.Target
  pub of_key-mul :
      (p : h.PublicKey) (r : h.Fr) (m : List ℕ)
      → pairing.of_key (h.g1_mul p r) m ≡ scale r (pairing.of_key p m)
  pub of_sign-mul_vec :
      (s : h.Sign) (r : h.Fr) (sigs : List h.Sign) (rs : List h.Fr)
      → length rs ≡ length sigs
      → pairing.of_sign (h.g2_mul_vec (s ∷ sigs) (r ∷ rs))
        ≡ weigh pairing.plus scale (scale r (pairing.of_sign s)) (map pairing.of_sign sigs) rs
  pub checked :
      (s : h.Sign) (p : h.PublicKey) (ps : List h.PublicKey) (m : List ℕ) (ms : List (List ℕ))
      → length ps ≡ length ms
      → All (λ (x : List ℕ). length x ≡ 32) (m ∷ ms)
      → h.aggregate_verify_no_check s (p ∷ ps) (flatten (m ∷ ms)) ≡ true
      → pairing.of_sign s ≡ gather pairing.plus pairing.of_key (pairing.of_key p m) ps ms

abbrev is_accepted : Outcome (Result SignatureError Bool) → Bool
is_accepted panic = false
is_accepted (done (err e)) = false
is_accepted (done (ok b)) = b

module _ (h : Herumi) (pairing : Pairing h) (scaling : Scaling h pairing) where
  open h use {Sign, PublicKey, Fr}
  open pairing use {Target, plus, of_sign, of_key}
  open scaling use {scale}

  abbrev pub signs : List (Signed h) → List Sign
  signs xs = map (λ (x : Signed h). x.signature) xs

  abbrev pub keys : List (Signed h) → List PublicKey
  keys xs = map (λ (x : Signed h). x.key) xs

  abbrev pub messages : List (Signed h) → List (List ℕ)
  messages xs = map (λ (x : Signed h). x.message) xs

  abbrev pub sign_value : Signed h → Target
  sign_value x = of_sign x.signature

  abbrev pub key_value : Signed h → Target
  key_value x = of_key x.key x.message

  -- The sum of values times the first numbers of the generator, as scalars.
  abbrev pub total : (Signed h → Target) → Signed h → List (Signed h) → Fr → List Fr → Target
  total value x xs r rs = weigh plus scale (scale r (value x)) (map value xs) rs

  gather-products :
      (t : Target) (xs : List (Signed h)) (rs : List Fr)
      → length rs ≡ length xs
      → gather plus of_key t (products h (keys xs) rs) (messages xs)
        ≡ weigh plus scale t (map key_value xs) rs
  unfolding gather weigh products
  gather-products t [] rs l = refl
  gather-products t (x ∷ xs) [] l = absurd (omega (arith, l))
  gather-products t (x ∷ xs) (r ∷ rs) l =
      ap (λ v. gather plus of_key (plus t v) (products h (keys xs) rs) (messages xs))
        (scaling.of_key-mul x.key r x.message)
      ∙ gather-products (plus t (scale r (key_value x))) xs rs (omega (arith, l))

  length-products :
      (xs : List (Signed h)) (rs : List Fr)
      → length rs ≡ length xs
      → length (products h (keys xs) rs) ≡ length (messages xs)
  unfolding products
  length-products [] rs l = refl
  length-products (x ∷ xs) [] l = absurd (omega (arith, l))
  length-products (x ∷ xs) (r ∷ rs) l = ap suc (length-products xs rs (omega (arith, l)))

  map-signs : (xs : List (Signed h)) → map of_sign (signs xs) ≡ map sign_value xs
  map-signs [] = refl
  map-signs (x ∷ xs) = ap (λ vs. sign_value x ∷ vs) (map-signs xs)

  messages-All :
      (xs : List (Signed h))
      → All (λ (x : Signed h). length x.message ≡ 32) xs
      → All (λ (m : List ℕ). length m ≡ 32) (messages xs)
  messages-All [] all = tt
  messages-All (x ∷ xs) all = (all.0, messages-All xs all.1)

  -- The check of the multiplied signatures and keys is their equation.
  check_iff :
      (x : Signed h) (xs : List (Signed h)) (r : Fr) (rs : List Fr)
      → length rs ≡ length xs
      → All (λ (y : Signed h). length y.message ≡ 32) (x ∷ xs)
      → (h.aggregate_verify_no_check
            (h.g2_mul_vec (signs (x ∷ xs)) (r ∷ rs))
            (products h (keys (x ∷ xs)) (r ∷ rs))
            (flatten (messages (x ∷ xs)))
          ≡ true)
        ↔ (total sign_value x xs r rs ≡ total key_value x xs r rs)
  unfolding products
  check_iff x xs r rs l long =
      let s = h.g2_mul_vec (signs (x ∷ xs)) (r ∷ rs) in
      let ps = products h (keys xs) rs in
      let even = length-products xs rs l in
      let whole = messages-All (x ∷ xs) long in
      let left : of_sign s ≡ total sign_value x xs r rs =
        scaling.of_sign-mul_vec x.signature r (signs xs) rs
          (l ∙ sym (length-map (λ (y : Signed h). y.signature) xs))
        ∙ ap (λ vs. weigh plus scale (scale r (sign_value x)) vs rs) (map-signs xs) in
      let right : gather plus of_key (of_key (h.g1_mul x.key r) x.message) ps (messages xs)
          ≡ total key_value x xs r rs =
        ap (λ v. gather plus of_key v ps (messages xs)) (scaling.of_key-mul x.key r x.message)
        ∙ gather-products (scale r (key_value x)) xs rs l in
      (
        λ passes.
            sym left
            ∙ scaling.checked s (h.g1_mul x.key r) ps x.message (messages xs) even whole passes
            ∙ right,
        λ equal.
            pairing.accepted s (h.g1_mul x.key r) ps x.message (messages xs) even whole
              (left ∙ equal ∙ sym right),
      )

  abbrev pub Accepts : (ℕ → ℕ) → List (Signed h) → Type 0
  Accepts generator xs =
      verify_multiple_signatures h generator (signs xs) (messages xs) (map some (keys xs))
      ≡ done (ok true)

  length-signs : (xs : List (Signed h)) → length (keys xs) ≡ length (signs xs)
  length-signs [] = refl
  length-signs (x ∷ xs) = ap suc (length-signs xs)

  length-messages : (xs : List (Signed h)) → length (messages xs) ≡ length (signs xs)
  length-messages [] = refl
  length-messages (x ∷ xs) = ap suc (length-messages xs)

  -- Where every 8 bytes are a scalar, over the equations of pairings: `VerifyMultipleSignatures`
  -- accepts signatures for messages of 32 bytes, at least one, exactly where the sum of the values of
  -- the signatures is that of the keys at their messages, the values at index i times the scalar of
  -- random number i, which can be zero.
  pub verify_multiple_signatures_iff :
      (fits : (b : List ℕ) → length b ≡ 8 → h.set_little_endian b ≢ none) (generator : ℕ → ℕ)
      (x : Signed h) (xs : List (Signed h))
      → All (λ (y : Signed h). length y.message ≡ 32) (x ∷ xs)
      → (r : Fr) × (rs : List Fr) × AreScalars h generator (r ∷ rs)
        × (length rs ≡ length xs)
        × (Accepts generator (x ∷ xs) ↔ (total sign_value x xs r rs ≡ total key_value x xs r rs))
  verify_multiple_signatures_iff fits generator x xs long =
      let (rs, are, l, e) =
        verify_multiple_signatures_lem h fits generator (signs (x ∷ xs)) (messages (x ∷ xs))
          (keys (x ∷ xs)) (omega arith) (length-signs (x ∷ xs)) (length-messages (x ∷ xs)) in
      at rs are l e
    where
      at :
          (rs : List Fr)
          → AreScalars h generator rs
          → length rs ≡ length (signs (x ∷ xs))
          → verify_multiple_signatures h generator
              (signs (x ∷ xs))
              (messages (x ∷ xs))
              (map some (keys (x ∷ xs)))
            ≡ done (
                ok (
                  h.aggregate_verify_no_check
                    (h.g2_mul_vec (signs (x ∷ xs)) rs)
                    (products h (keys (x ∷ xs)) rs)
                    (flatten (messages (x ∷ xs)))))
          → (r : Fr) × (rs' : List Fr) × AreScalars h generator (r ∷ rs')
            × (length rs' ≡ length xs)
            × (Accepts generator (x ∷ xs)
                ↔ (total sign_value x xs r rs' ≡ total key_value x xs r rs'))
      at [] are l e = absurd (omega (arith, l))
      at (r ∷ rs) are l e =
          let even : length rs ≡ length xs =
            omega (arith, l, length-map (λ (y : Signed h). y.signature) xs) in
          let check = check_iff x xs r rs even long in
          (
            r,
            rs,
            are,
            even,
            (
              λ accepted. check.0 (ap is_accepted (sym e ∙ accepted)),
              λ equal. e ∙ ap (λ b. done (ok b)) (check.1 equal),
            ),
          )

  values_lem :
      (xs : List (Signed h)) → All (IsVerified h pairing) xs → map sign_value xs ≡ map key_value xs
  values_lem [] all = refl
  values_lem (x ∷ xs) all = rw (verified_value h pairing x all.0.0, values_lem xs all.1) refl

  long_messages :
      (xs : List (Signed h))
      → All (IsVerified h pairing) xs
      → All (λ (y : Signed h). length y.message ≡ 32) xs
  long_messages [] all = tt
  long_messages (x ∷ xs) all = (all.0.1, long_messages xs all.1)

  -- Where every 8 bytes are a scalar, over the equations of pairings: `VerifyMultipleSignatures`
  -- accepts signatures that each verify under their key for their message of 32 bytes, at least one,
  -- whatever the random numbers are.
  pub verify_multiple_signatures-verify :
      (fits : (b : List ℕ) → length b ≡ 8 → h.set_little_endian b ≢ none) (generator : ℕ → ℕ)
      (x : Signed h) (xs : List (Signed h))
      → All (IsVerified h pairing) (x ∷ xs)
      → Accepts generator (x ∷ xs)
  verify_multiple_signatures-verify fits generator x xs all =
      let (r, rs, are, even, iff) =
        verify_multiple_signatures_iff fits generator x xs (long_messages (x ∷ xs) all) in
      let equal : total sign_value x xs r rs ≡ total key_value x xs r rs =
        ap (λ v. weigh plus scale (scale r v) (map sign_value xs) rs)
          (verified_value h pairing x all.0.0)
        ∙ ap (λ vs. weigh plus scale (scale r (key_value x)) vs rs) (values_lem xs all.1) in
      iff.1 equal
