-- ===== src/Bls/Signatures/Examples.antt =====
-- Aggregates with small keys: a signature is its key times the sum of the message.
use eth_research.Base.{
  ℕ, suc, ◌+◌, ◌*◌, ◌≡◌, refl, sym, ap, ◌∙◌, List, [], ◌∷◌, ◌++◌, true, none, some, ◌==◌, ==_iff,
  length, map, replicate, take, drop, take-append, All, arith, done, ok, ◌≢◌, ◌↔◌,
}
use eth_research.Bls.Herumi.{Herumi}
use eth_research.Bls.Signatures.{
  flatten, verify, aggregate_verify, fast_aggregate_verify, aggregate_signatures,
  verify_multiple_signatures,
}
use eth_research.Bls.Signatures.Aggregated.{
  gather, Pairing, Signed, IsVerified, aggregate_verify-aggregate_signatures,
  fast_aggregate_verify-aggregate_signatures,
}
use eth_research.Bls.Signatures.Acceptance.{AreScalars}
use eth_research.Bls.Signatures.Multiplied.{
  weigh, Scaling, Accepts, total, sign_value, key_value, verify_multiple_signatures-verify,
  verify_multiple_signatures_iff,
}
use eth_research.Bytes.Integers.{le_value}

sum : List ℕ → ℕ
sum [] = 0
sum (b ∷ bs) = b + sum bs

-- The keys times the sums of the messages, which have 32 bytes each.
tally : List ℕ → List ℕ → ℕ
tally [] bytes = 0
tally (p ∷ ps) bytes = p * sum (take 32 bytes) + tally ps (drop 32 bytes)

tally_one : List ℕ → List ℕ → ℕ
tally_one [] m = 0
tally_one (p ∷ ps) m = p * sum m + tally_one ps m

-- Signatures times scalars, added up.
abbrev dot : List ℕ → List ℕ → ℕ
dot [] rs = 0
dot (s ∷ sigs) [] = 0
dot (s ∷ sigs) (r ∷ rs) = s * r + dot sigs rs

abbrev tallies : Herumi
tallies = record {
  Sign = ℕ;
  PublicKey = ℕ;
  SecretKey = ℕ;
  Fr = ℕ;
  deserialize_sign = λ b. none;
  serialize_sign = λ s. s ∷ [];
  deserialize_public_key = λ b. none;
  serialize_public_key = λ p. p ∷ [];
  public_key_is_zero = λ p. p == 0;
  add_public_key = λ p q. p + q;
  deserialize_secret_key = λ b. none;
  serialize_secret_key = λ k. k ∷ [];
  secret_key_is_zero = λ k. k == 0;
  get_public_key = λ k. k;
  sign_byte = λ k m. k * sum m;
  verify_byte = λ s p m. s == p * sum m;
  aggregate_verify_no_check = λ s ps bytes. s == tally ps bytes;
  fast_aggregate_verify = λ s ps m. s == tally_one ps m;
  add_sign = λ s t. s + t;
  set_little_endian = λ b. some (le_value b);
  g2_mul_vec = dot;
  g1_mul = λ p r. p * r;
  hash_and_map_to_signature = λ b. sum b;
  sign_to_hex_str = λ s. s ∷ [];
}

abbrev gathered : ℕ → List ℕ → List (List ℕ) → ℕ
gathered t ps ms = gather ◌+◌ (λ p m. p * sum m) t ps ms

drop-append : (xs ys : List ℕ) → drop (length xs) (xs ++ ys) ≡ ys
drop-append [] ys = refl
drop-append (x ∷ xs) ys = drop-append xs ys

tally_lem :
    (t : ℕ) (ps : List ℕ) (ms : List (List ℕ))
    → length ps ≡ length ms
    → All (λ (x : List ℕ). length x ≡ 32) ms
    → gathered t ps ms ≡ t + tally ps (flatten ms)
unfolding gather tally flatten
tally_lem t [] [] e all = omega arith
tally_lem t [] (m ∷ ms) e all = absurd (omega (arith, e))
tally_lem t (p ∷ ps) [] e all = absurd (omega (arith, e))
tally_lem t (p ∷ ps) (m ∷ ms) e all =
    let front : take 32 (m ++ flatten ms) ≡ m =
      ap (λ n. take n (m ++ flatten ms)) (sym all.0) ∙ take-append m (flatten ms) in
    let back : drop 32 (m ++ flatten ms) ≡ flatten ms =
      ap (λ n. drop n (m ++ flatten ms)) (sym all.0) ∙ drop-append m (flatten ms) in
    let rest = tally_lem (t + p * sum m) ps ms (omega (arith, e)) all.1 in
    let here = ap (λ (bytes : List ℕ). p * sum bytes) front in
    let later = ap (λ (bytes : List ℕ). tally ps bytes) back in omega (arith, rest, here, later)

tally_one_lem :
    (t : ℕ) (ps : List ℕ) (m : List ℕ) → gathered t ps (map (λ q. m) ps) ≡ t + tally_one ps m
unfolding gather tally_one
tally_one_lem t [] m = omega arith
tally_one_lem t (p ∷ ps) m = omega (arith, tally_one_lem (t + p * sum m) ps m)

tallies_accepted :
    (s p : ℕ) (ps : List ℕ) (m : List ℕ) (ms : List (List ℕ))
    → length ps ≡ length ms
    → All (λ (x : List ℕ). length x ≡ 32) (m ∷ ms)
    → s ≡ gathered (p * sum m) ps ms
    → (s == tally (p ∷ ps) (flatten (m ∷ ms))) ≡ true
unfolding gather
tallies_accepted s p ps m ms e all value =
    let all_keys = tally_lem 0 (p ∷ ps) (m ∷ ms) (ap suc e) all in
    let from_zero : gathered (0 + p * sum m) ps ms ≡ gathered (p * sum m) ps ms =
      ap (λ (t : ℕ). gathered t ps ms) (omega arith) in
    (==_iff s (tally (p ∷ ps) (flatten (m ∷ ms)))).1
      (value ∙ sym from_zero ∙ all_keys ∙ omega arith)

tallies_fast_accepted :
    (s p : ℕ) (ps : List ℕ) (m : List ℕ)
    → s ≡ gathered (p * sum m) ps (map (λ q. m) ps)
    → (s == tally_one (p ∷ ps) m) ≡ true
unfolding tally_one
tallies_fast_accepted s p ps m value =
    (==_iff s (tally_one (p ∷ ps) m)).1 (value ∙ tally_one_lem (p * sum m) ps m)

tallies_pairing : Pairing tallies
tallies_pairing = record {
  Target = ℕ;
  plus = ◌+◌;
  of_sign = λ s. s;
  of_key = λ p m. p * sum m;
  of_sign-add = λ s t. refl;
  verified = λ s p m e. (==_iff s (p * sum m)).0 e;
  accepted = tallies_accepted;
  fast_accepted = tallies_fast_accepted;
}

abbrev root : List ℕ
root = 9 ∷ replicate 31 0

abbrev signed : ℕ → Signed tallies
signed k = record { signature = k * 9; key = k; message = root }

abbrev keys : List ℕ
keys = 3 ∷ 5 ∷ []

signed-IsVerified : All (IsVerified tallies tallies_pairing) (signed 3 ∷ signed 5 ∷ [])
unfolding verify sum
signed-IsVerified = ((refl, refl), ((refl, refl), tt))

aggregate_verify-aggregate_signatures_example :
    (total : ℕ) × (aggregate_signatures tallies (27 ∷ 45 ∷ []) ≡ some total)
    × (aggregate_verify tallies total keys (root ∷ root ∷ []) ≡ true)
aggregate_verify-aggregate_signatures_example =
    aggregate_verify-aggregate_signatures tallies tallies_pairing (signed 3) (signed 5 ∷ [])
      signed-IsVerified

fast_aggregate_verify-aggregate_signatures_example :
    (total : ℕ) × (aggregate_signatures tallies (27 ∷ 45 ∷ []) ≡ some total)
    × (fast_aggregate_verify tallies total keys root ≡ true)
fast_aggregate_verify-aggregate_signatures_example =
    fast_aggregate_verify-aggregate_signatures tallies tallies_pairing root (signed 3)
      (signed 5 ∷ []) signed-IsVerified (refl, (refl, tt))

abbrev times : ℕ → ℕ → ℕ
times r t = t * r

weigh-dot :
    (t : ℕ) (sigs rs : List ℕ) → weigh ◌+◌ times t (map (λ (s : ℕ). s) sigs) rs ≡ t + dot sigs rs
unfolding weigh
weigh-dot t [] rs = omega arith
weigh-dot t (s ∷ sigs) [] = omega arith
weigh-dot t (s ∷ sigs) (r ∷ rs) = omega (arith, weigh-dot (t + s * r) sigs rs)

tallies_checked :
    (s p : ℕ) (ps : List ℕ) (m : List ℕ) (ms : List (List ℕ))
    → length ps ≡ length ms
    → All (λ (x : List ℕ). length x ≡ 32) (m ∷ ms)
    → (s == tally (p ∷ ps) (flatten (m ∷ ms))) ≡ true
    → s ≡ gathered (p * sum m) ps ms
unfolding gather
tallies_checked s p ps m ms e all passes =
    let all_keys = tally_lem 0 (p ∷ ps) (m ∷ ms) (ap suc e) all in
    let from_zero : gathered (0 + p * sum m) ps ms ≡ gathered (p * sum m) ps ms =
      ap (λ (t : ℕ). gathered t ps ms) (omega arith) in
    let equal : s ≡ tally (p ∷ ps) (flatten (m ∷ ms)) =
      (==_iff s (tally (p ∷ ps) (flatten (m ∷ ms)))).0 passes in
    omega (arith, equal, all_keys, from_zero)

tallies_scaling : Scaling tallies tallies_pairing
unfolding tallies_pairing
tallies_scaling = record {
  scale = times;
  of_key-mul = λ p r m. omega arith;
  of_sign-mul_vec = λ s r sigs rs l. sym (weigh-dot (s * r) sigs rs);
  checked = tallies_checked;
}

tallies_fits : (b : List ℕ) → length b ≡ 8 → tallies.set_little_endian b ≢ none
tallies_fits b e x = cc

two_accepted :
    verify_multiple_signatures tallies
      (λ i. i + 3)
      (27 ∷ 45 ∷ [])
      (root ∷ root ∷ [])
      (some 3 ∷ some 5 ∷ [])
    ≡ done (ok true)
two_accepted =
    verify_multiple_signatures-verify tallies tallies_pairing tallies_scaling tallies_fits
      (λ i. i + 3) (signed 3) (signed 5 ∷ []) signed-IsVerified

-- The same of a key and a signature that is not its own.
abbrev wrong : Signed tallies
wrong = record { signature = 28; key = 3; message = root }

verify_multiple_signatures_iff_example :
    (r : ℕ) × (rs : List ℕ) × AreScalars tallies (λ i. i + 3) (r ∷ rs)
    × (length rs ≡ 1)
    × (Accepts tallies tallies_pairing tallies_scaling (λ i. i + 3) (wrong ∷ signed 5 ∷ []) ↔ (
        total tallies tallies_pairing tallies_scaling
          (sign_value tallies tallies_pairing tallies_scaling)
          wrong
          (signed 5 ∷ [])
          r
          rs
        ≡ total tallies tallies_pairing tallies_scaling
            (key_value tallies tallies_pairing tallies_scaling)
            wrong
            (signed 5 ∷ [])
            r
            rs))
verify_multiple_signatures_iff_example =
    verify_multiple_signatures_iff tallies tallies_pairing tallies_scaling tallies_fits (λ i. i + 3)
      wrong (signed 5 ∷ []) (refl, (refl, tt))
