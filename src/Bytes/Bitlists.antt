-- ===== src/Bytes/Bitlists.antt =====
-- bytesutil/bytes.go: bitlists. A bitlist is the list of its bytes; bit `i` is bit `i % 8` of byte
-- `i / 8`. `SetBit` and `ClearBit` write in place: what they return here is what the slice
-- that they return holds. Indices are not negative (Go panics on a negative one).
pub mod Writes
pub mod Highest
pub mod HighestAt
use eth_research.Base.{
  ℕ, zero, suc, ◌+◌, ◌-◌, ◌*◌, ◌/◌, ◌%◌, ◌^◌, List, [], ◌∷◌, ◌++◌, ltb, leb, ◌==◌, ◌&&◌, ◌||◌,
  if◌then◌else◌, length, replicate, get_or, set, bit_and, bit_or, bit_xor, Result, ok, err,
}
use eth_research.Base.Bits.{bit}

-- Bit `p` of a bitlist, 0 behind its end.
abbrev pub bit_at : List ℕ → ℕ → ℕ
bit_at b p = bit (get_or b (p / 8) 0) (p % 8)

-- `uint8(1 << (i % 8))`
abbrev pub bit_mask : ℕ → ℕ
bit_mask i = 2 ^ (i % 8) % 256

unfoldable pub grow : List ℕ → ℕ → List ℕ
grow b i =
    if leb (length b * 8) i
    then (let h = (i + (8 - i % 8)) / 8 in b ++ replicate (h - length b) 0)
    else b

unfoldable pub set_bit : List ℕ → ℕ → List ℕ
set_bit b i =
    let grown = grow b i in set grown (i / 8) (bit_or (get_or grown (i / 8) 0) (bit_mask i))

-- `x &^ m` on bytes is `x & (m ^ 0xff)`.
unfoldable pub clear_bit : List ℕ → ℕ → List ℕ
clear_bit b i =
    if leb (length b * 8) i
    then b
    else set b (i / 8) (bit_and (get_or b (i / 8) 0) (bit_xor (bit_mask i) 255))

unfoldable pub make_empty_bitlists : ℕ → List ℕ
make_empty_bitlists i = replicate ((i + (8 - i % 8)) / 8) 0

-- `bits.Len8`: how many bits it takes to write a byte, 0 for 0.
unfoldable pub bit_len : ℕ → ℕ → ℕ
bit_len zero x = 0
bit_len (suc k) x = if x == 0 then 0 else suc (bit_len k (x / 2))

unfoldable pub len8 : ℕ → ℕ
len8 x = bit_len 8 x

pub data BitError : Type 0 where
  empty_list : BitError

-- The loop of `HighestBitIndex`, whose `i` is one less than the number here.
unfoldable pub highest_loop : List ℕ → ℕ → ℕ
highest_loop b zero = 0
highest_loop b (suc i) =
    let rest = highest_loop b i in if get_or b i 0 == 0 then rest else len8 (get_or b i 0) + i * 8

unfoldable pub highest_bit_index : List ℕ → Result BitError ℕ
highest_bit_index b = if length b == 0 then err empty_list else ok (highest_loop b (length b))

-- The loop of `HighestBitIndexAt`, with the mask as it stands before the round.
unfoldable pub highest_at_loop : List ℕ → ℕ → ℕ → ℕ → ℕ
highest_at_loop b index zero mask = 0
highest_at_loop b index (suc i) mask =
    let mask' = if ltb i (index / 8) then 255 else mask in
    let masked = bit_and (get_or b i 0) mask' in
    let rest = highest_at_loop b index i mask' in
    if get_or b i 0 == 0 || (len8 masked == 0 && leb (index / 8) i)
    then rest
    else len8 masked + i * 8

-- A nil slice is an empty one.
unfoldable pub highest_bit_index_at : List ℕ → ℕ → Result BitError ℕ
highest_bit_index_at b index =
    let start = if leb (length b) (index / 8) then length b - 1 else index / 8 in
    if length b == 0
    then err empty_list
    else ok (highest_at_loop b index (start + 1) ((2 ^ (index % 8) - 1) % 256))
