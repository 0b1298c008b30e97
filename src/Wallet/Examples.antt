-- ===== src/Wallet/Examples.antt =====
-- Runs of wallet on a small host, with small keys.
use eth_research.Bytes.Slices.{to_bytes48, copy}
use eth_research.Base.{
  ℕ, zero, suc, ◌≡◌, refl, List, [], ◌∷◌, true, Option, none, some, replicate, done, ok, err,
}
use eth_research.Base.Dict.{bytes_eq, bytes_beq_iff, insert}
use eth_research.Base.Text.{String, concat, drop1}
use eth_research.Files.{expand_path, has_dir, expand_tilde, home_dir}
use eth_research.Files.Examples.{small_host}
use eth_research.Bls.Keys.{KeyStore, secret_key_from_bytes}
use eth_research.Bls.Keys.Cache.{IsValid}
use eth_research.Bls.Examples.{toy, key_bytes, cached, cached-IsValid}
use eth_research.Wallet.Kinds.{imported, parse_kind, cannot_open_dir}
use eth_research.Wallet.{Config, wallet_of, open_wallet}
use eth_research.Wallet.Opening.{kinds_in, only, open_wallet_lem, open_wallet_unexpanded}
use eth_research.Wallet.Keymanager.{
  SlotInfo, Codec, Decrypted, AccountStore, Keymanager, Caches, sign, verify_signature,
  initialize_keys_caches_from_keystore, cache_keys,
}
use eth_research.Wallet.Slots.{with_hash, decode_rlp, out_of_fuel, decode_rlp_lem}
use eth_research.Wallet.Slots.Hashes.{verify_signature-sign_other}
use eth_research.Wallet.Keymanager.Filled.{name_of, public_of, IsPaired}
use eth_research.Wallet.Keymanager.Filling.{Ends, initialize_keys_caches_from_keystore_lem}
use eth_research.Wallet.Keymanager.Signing.{sign-verify_signature}

abbrev config : String → Config
config dir = record { wallet_dir = dir; keymanager_kind = imported; wallet_password = "secret" }

open_wallet_lem_example :
    open_wallet small_host (384, []) (config "/home/w")
    ≡ ok (wallet_of small_host "/home/w" "secret" imported)
unfolding expand_path expand_tilde has_dir only kinds_in parse_kind
open_wallet_lem_example =
    open_wallet_lem small_host (384, []) (config "/home/w") "/home/w" ("direct" ∷ "x.txt" ∷ []) refl
      refl refl refl

open_wallet_unexpanded_example :
    open_wallet small_host (384, []) (config "~/w") ≡ err cannot_open_dir
unfolding expand_path expand_tilde home_dir concat drop1 has_dir only kinds_in parse_kind
open_wallet_unexpanded_example =
    open_wallet_unexpanded small_host (384, []) (config "~/w") "/home/w" ("direct" ∷ "x.txt" ∷ [])
      imported refl refl refl refl refl

-- A store with one key, and the caches that it fills.
abbrev pub store : AccountStore
store = record { private_keys = (7 ∷ replicate 31 0) ∷ []; public_keys = some (key_bytes 7) ∷ [] }

abbrev pub keymanager : Keymanager
keymanager = record { accounts_store = store; disabled_public_keys = [] }

abbrev pub no_caches : Caches toy
no_caches = record { ordered_public_keys = []; secret_keys = [] }

abbrev pub filled : Caches toy
filled = record { ordered_public_keys = key_bytes 7 ∷ []; secret_keys = (key_bytes 7, 7) ∷ [] }

filling : initialize_keys_caches_from_keystore toy store no_caches ≡ done (ok true, filled)
unfolding initialize_keys_caches_from_keystore cache_keys secret_key_from_bytes to_bytes48 insert
    copy
filling = refl

pub read_seven : secret_key_from_bytes toy (7 ∷ replicate 31 0) ≡ ok 7
unfolding secret_key_from_bytes
read_seven = refl

name_of_seven : name_of toy (some (key_bytes 7)) ≡ public_of toy 7
unfolding to_bytes48 copy
name_of_seven = refl

pub store-IsPaired : IsPaired toy store
store-IsPaired zero p private_key k e1 e2 good =
    let is_private : private_key ≡ 7 ∷ replicate 31 0 = cc in
    let seven = read_seven in
    let is_seven : k ≡ 7 = cc in
    let is_public : p ≡ some (key_bytes 7) = cc in rw (is_seven, is_public) name_of_seven
store-IsPaired (suc i) p private_key k e1 e2 good = cc

abbrev pub hash_codec : Codec
hash_codec = record {
  Crypto = ℕ;
  unmarshal_keystore = λ b. none;
  decrypt = λ c p. Decrypted.decrypt_failed;
  unmarshal_store = λ b. none;
  hex_decode = λ s. none;
  slot_hash = λ info. info.epoch ∷ info.slot ∷ info.proposer_index ∷ [];
}

abbrev pub slot_info : SlotInfo
slot_info = record { epoch = 2; slot = 65; proposer_index = 11 }

initialize_keys_caches_from_keystore_lem_example :
    Ends toy store 1 (initialize_keys_caches_from_keystore toy store no_caches)
initialize_keys_caches_from_keystore_lem_example =
    initialize_keys_caches_from_keystore_lem toy store no_caches store-IsPaired refl

pub toy_correct :
    (k : ℕ) (m : List ℕ) → toy.verify_byte (toy.sign_byte k m) (toy.get_public_key k) m ≡ true
toy_correct k m = (bytes_beq_iff (k ∷ m) (k ∷ m)).1 refl

sign-verify_signature_example :
    (signature : List ℕ) × (s' : KeyStore toy) × (sign toy hash_codec keymanager filled slot_info 0
      ≡ done (ok signature))
    × (verify_signature toy hash_codec true true keymanager slot_info 0 signature cached
        ≡ done (ok true, s'))
    × IsValid toy s'
sign-verify_signature_example =
    sign-verify_signature toy hash_codec (λ p. refl) (λ k e. e) toy_correct true true keymanager
      no_caches filled true slot_info 0 (key_bytes 7) cached store-IsPaired refl filling refl refl
      cached-IsValid

abbrev other_slot : SlotInfo
other_slot = record { epoch = 3; slot = 96; proposer_index = 0 }

-- Package rlp that refuses the values, and a hash that adds a byte.
verify_signature-sign_other_example :
    (signature : List ℕ) × (s' : KeyStore toy) × (sign toy
        (with_hash (λ s. none) (λ b. 5 ∷ b) hash_codec)
        keymanager
        filled
        slot_info
        0
      ≡ done (ok signature))
    × (verify_signature toy
          (with_hash (λ s. none) (λ b. 5 ∷ b) hash_codec)
          true
          true
          keymanager
          other_slot
          0
          signature
          cached
        ≡ done (ok true, s'))
verify_signature-sign_other_example =
    verify_signature-sign_other (λ s. none) (λ b. 5 ∷ b) (λ s. refl) toy hash_codec (λ p. refl)
      (λ k e. e) toy_correct true true keymanager no_caches filled true slot_info other_slot 0
      (key_bytes 7) cached store-IsPaired refl filling refl refl cached-IsValid

abbrev rest_of : List ℕ → List ℕ
rest_of [] = []
rest_of (x ∷ xs) = xs

abbrev keccak_of : List ℕ → List ℕ
keccak_of b = rest_of b

abbrev later_index : SlotInfo
later_index = record { epoch = 3; slot = 65; proposer_index = 11 }

-- Package rlp that writes the three numbers, and a hash that drops the first.
abbrev three_numbers : SlotInfo → Option (List ℕ)
three_numbers s = some (s.epoch ∷ s.slot ∷ s.proposer_index ∷ [])

abbrev first_of : List ℕ → ℕ
first_of [] = 0
first_of (x ∷ xs) = x

abbrev bytes_in : Option (List ℕ) → List ℕ
bytes_in none = []
bytes_in (some b) = b

decode_rlp_lem_example : decode_rlp {Stream = ℕ} (λ dec stream. dec stream) 9 0 ≡ out_of_fuel
decode_rlp_lem_example = decode_rlp_lem (λ dec stream. dec stream) (λ dec stream. refl) 9 0
