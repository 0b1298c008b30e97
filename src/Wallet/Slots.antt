-- ===== src/Wallet/Slots.antt =====
-- wallet/types.go: the hash of a slot and its RLP. Package rlp and Keccak are parameters; `none` is
-- an error of package rlp.
pub mod Hashes
use eth_research.Base.{ℕ, zero, suc, ◌≡◌, refl, ap, ◌∙◌, sym, List, [], Option, none, some}
use eth_research.Bls.Herumi.{Herumi}
use eth_research.Wallet.Stored.{SlotInfo, Codec, Keymanager}
use eth_research.Wallet.Keymanager.{Caches, sign}

-- What `rlp.Encode` writes of a `SlotInfo` that is passed by value.
module _ (encode_value : SlotInfo → Option (List ℕ)) where
  -- `SlotInfo.EncodeRLP`, which passes a copy by value.
  unfoldable pub encode_rlp : SlotInfo → Option (List ℕ)
  encode_rlp s =
      encode_value (record { epoch = s.epoch; slot = s.slot; proposer_index = s.proposer_index })

  -- `rlpHash` of a pointer, of which `rlp.Encode` calls `EncodeRLP`. Its error is dropped, and
  -- nothing is written then.
  unfoldable pub rlp_hash : (List ℕ → List ℕ) → SlotInfo → List ℕ
  rlp_hash keccak s = keccak (elim (encode_rlp s) [ none ↦ [] | some bytes ↦ bytes ])

  -- `SlotInfo.Hash`
  unfoldable pub hash : (List ℕ → List ℕ) → SlotInfo → List ℕ
  hash keccak s = rlp_hash keccak s

-- What a decoder of a `SlotInfo` ends with, over the streams of package rlp.
pub data Decoded (Stream : Type 0) : Type 0 where
  out_of_fuel decode_failed : Decoded Stream
  decoded : SlotInfo → Stream → Decoded Stream

-- `Stream.Decode` into a `SlotInfo` is given the decoder of that type, as package rlp finds it.
module _ {Stream : Type 0} (decode : (Stream → Decoded Stream) → Stream → Decoded Stream) where
  -- `SlotInfo.DecodeRLP`, with fuel for the nested calls.
  unfoldable pub decode_rlp : ℕ → Stream → Decoded Stream
  decode_rlp zero stream = out_of_fuel
  decode_rlp (suc fuel) stream = elim (decode (decode_rlp fuel) stream) [
    | out_of_fuel ↦ out_of_fuel
    | decode_failed ↦ decode_failed
    | decoded eb rest ↦
        decoded (record { epoch = eb.epoch; slot = eb.slot; proposer_index = eb.proposer_index })
          rest
  ]

  -- Where `Stream.Decode` calls the decoder of the type, no fuel is enough for `DecodeRLP`.
  pub decode_rlp_lem :
      (calls : (dec : Stream → Decoded Stream) (stream : Stream) → decode dec stream ≡ dec stream)
      (fuel : ℕ) (stream : Stream)
      → decode_rlp fuel stream ≡ out_of_fuel
  unfolding decode_rlp
  decode_rlp_lem calls zero stream = refl
  decode_rlp_lem calls (suc fuel) stream =
      rw (decode_rlp, calls (decode_rlp fuel) stream, decode_rlp_lem calls fuel stream) refl

module _ (encode_value : SlotInfo → Option (List ℕ)) (keccak : List ℕ → List ℕ) where
  -- A codec whose hash of a slot is that of the package.
  abbrev pub with_hash : Codec → Codec
  with_hash codec = record codec { slot_hash = hash encode_value keccak }

  hash_empty :
      (refuses : (s : SlotInfo) → encode_value s ≡ none) (s : SlotInfo)
      → hash encode_value keccak s ≡ keccak []
  unfolding hash rlp_hash encode_rlp
  hash_empty refuses s = rw (hash, rlp_hash, encode_rlp, refuses s) refl

  -- Where package rlp refuses a value of a type whose `EncodeRLP` belongs to the pointer, `Hash` of
  -- every slot is the hash of no bytes, and `Sign` makes the same signature for every slot.
  pub hash-sign :
      (refuses : (s : SlotInfo) → encode_value s ≡ none) (h : Herumi) (codec : Codec)
      (km : Keymanager) (c : Caches h) (s t : SlotInfo) (i : ℕ)
      → (hash encode_value keccak s ≡ keccak [])
        × (sign h (with_hash codec) km c s i ≡ sign h (with_hash codec) km c t i)
  unfolding sign
  hash-sign refuses h codec km c s t i =
      let same = hash_empty refuses s ∙ sym (hash_empty refuses t) in
      (
        hash_empty refuses s,
        ap (λ (m : List ℕ). sign h (record codec { slot_hash = λ x. m }) km c s i) same,
      )
