-- ===== src/Wallet/Stored.antt =====
-- wallet/types.go and wallet/keymanager.go: slots, the stores of keys, and what decodes them.
use eth_research.Base.{ℕ, List, [], Bool, Option, none, some}
use eth_research.Base.Dict.{Dict, bytes_eq}
use eth_research.Base.Text.{String}
use eth_research.Bls.Keys.{KeyError}

-- `SlotInfo`
pub record SlotInfo : Type 0 where
  pub epoch : ℕ
  pub slot : ℕ
  pub proposer_index : ℕ

unfoldable pub new_slot_info : ℕ → ℕ → ℕ → SlotInfo
new_slot_info epoch slot proposer_index = record {
  epoch = epoch;
  slot = slot;
  proposer_index = proposer_index;
}

-- `accountStore`. A public key is nil where the decoded store says null.
pub record AccountStore : Type 0 where
  pub private_keys : List (List ℕ)
  pub public_keys : List (Option (List ℕ))

-- The bytes of a key, where nil has none.
abbrev pub bytes_of : Option (List ℕ) → List ℕ
bytes_of none = []
bytes_of (some b) = b

pub data KeymanagerError : Type 0 where
  cannot_read_keystore cannot_decode_keystore wrong_password cannot_decrypt : KeymanagerError
  cannot_decode_store unequal_numbers bad_disabled_key nil_public_key no_signing_key :
      KeymanagerError
  failed_to_verify : KeymanagerError
  in_key : KeyError → KeymanagerError

-- What `ReadFileAtPath` answers: "no files found", another error, or the bytes.
pub data Encoded : Type 0 where
  no_files read_failed : Encoded
  encoded : List ℕ → Encoded

-- What the decryptor of the keystore answers.
pub data Decrypted : Type 0 where
  invalid_checksum decrypt_failed : Decrypted
  plain : List ℕ → Decrypted

-- The packages that decode and decrypt, and the hash of a slot.
pub record Codec : Type 1 where
  pub Crypto : Type 0
  pub unmarshal_keystore : List ℕ → Option (Crypto × List String)
  pub decrypt : Crypto → String → Decrypted
  pub unmarshal_store : List ℕ → Option AccountStore
  pub hex_decode : String → Option (List ℕ)
  pub slot_hash : SlotInfo → List ℕ

-- `Keymanager`, without its wallet.
pub record Keymanager : Type 0 where
  pub accounts_store : AccountStore
  pub disabled_public_keys : Dict (List ℕ) Bool

abbrev pub empty_keymanager : Keymanager
empty_keymanager = record {
  accounts_store = record { private_keys = []; public_keys = [] };
  disabled_public_keys = [];
}
