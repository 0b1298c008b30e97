-- ===== src/Wallet/Keymanager/Examples.antt =====
-- Two keymanagers, one after the other.
use eth_research.Base.{
  ℕ, zero, suc, ◌≡◌, refl, ap, sym, ◌∙◌, List, [], ◌∷◌, Option, none, some, replicate, arith, done,
  ok, err,
}
use eth_research.Base.Dict.{bytes_eq, insert}
use eth_research.Bytes.Slices.{to_bytes48, copy}
use eth_research.Bls.Keys.{secret_key_from_bytes}
use eth_research.Bls.Examples.{toy, key_bytes}
use eth_research.Wallet.Keymanager.{
  bytes_of, Codec, Decrypted, Keymanager, encoded, no_signing_key, disable, cache_keys,
  initialize_keys_caches_from_keystore, use_store, initialize_account_keystore, new_keymanager,
  sign,
}
use eth_research.Wallet.Keymanager.Shared.{Unlisted, sign-new_keymanager}
use eth_research.Wallet.Examples.{store, keymanager, filled, no_caches, slot_info}

-- A keystore in the clear, of one key.
abbrev clear_codec : Codec
clear_codec = record {
  Crypto = List ℕ;
  unmarshal_keystore = λ b. some (b, []);
  decrypt = λ c p. Decrypted.plain c;
  unmarshal_store = λ b. some store;
  hex_decode = λ s. some [];
  slot_hash = λ info. info.epoch ∷ info.slot ∷ info.proposer_index ∷ [];
}

-- A keymanager of another key.
abbrev earlier : Keymanager
earlier = record {
  accounts_store = record {
    private_keys = (5 ∷ replicate 31 0) ∷ [];
    public_keys = some (key_bytes 5) ∷ [];
  };
  disabled_public_keys = [];
}

second_made :
    new_keymanager toy clear_codec (encoded []) "secret" no_caches ≡ done (ok keymanager, filled)
unfolding new_keymanager initialize_account_keystore use_store disable
    initialize_keys_caches_from_keystore cache_keys secret_key_from_bytes to_bytes48 insert copy
second_made = refl

name_at : Option (Option (List ℕ)) → List ℕ
name_at none = []
name_at (some p) = to_bytes48 (bytes_of p)

first_of : List ℕ → ℕ
first_of [] = 0
first_of (x ∷ xs) = x

five-Unlisted : Unlisted (to_bytes48 (key_bytes 5)) store.public_keys
unfolding to_bytes48 copy name_at first_of
five-Unlisted zero p e =
    let seven : to_bytes48 (bytes_of p) ≡ key_bytes 7 =
      ap (λ (o : Option (Option (List ℕ))). name_at o) (sym e) in
    λ is. absurd (omega (arith, ap first_of (sym seven ∙ is)))
five-Unlisted (suc i) p e = cc

sign-new_keymanager_example :
    sign toy clear_codec earlier filled slot_info 0 ≡ done (err no_signing_key)
sign-new_keymanager_example =
    sign-new_keymanager toy clear_codec (encoded []) "secret" earlier keymanager no_caches filled
      slot_info 0 (key_bytes 5) (omega arith) second_made refl five-Unlisted
