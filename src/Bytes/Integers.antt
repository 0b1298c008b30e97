-- ===== src/Bytes/Integers.antt =====
-- bytesutil/bytes.go: integers to byte slices and back. A byte is a number below 256 and a
-- `uint64` a number below 2 ^ 64; a byte slice is the list of its elements.
pub mod Digits
pub mod RoundTrip
pub mod BigEndian
use eth_research.Base.{
  ℕ, zero, suc, ◌+◌, ◌-◌, ◌*◌, ◌/◌, ◌%◌, ◌<◌, Bool, true, false, List, [], ◌∷◌, ◌++◌, ltb, leb,
  ◌==◌, if◌then◌else◌, length, take, drop, replicate, All, bit_and, Outcome, done, panic, ◌>>=◌,
}
use eth_research.Base.Int.{ℤ, to_int64}

abbrev pub IsByte : ℕ → Type 0
IsByte b = b < 256

-- The `n` lowest bytes of a number, the lowest first; and the highest first.
unfoldable pub le_bytes : ℕ → ℕ → List ℕ
le_bytes zero v = []
le_bytes (suc n) v = (v % 256) ∷ le_bytes n (v / 256)

unfoldable pub be_bytes : ℕ → ℕ → List ℕ
be_bytes zero v = []
be_bytes (suc n) v = be_bytes n (v / 256) ++ ((v % 256) ∷ [])

unfoldable pub le_value : List ℕ → ℕ
le_value [] = 0
le_value (b ∷ bs) = b + 256 * le_value bs

unfoldable pub be_value : ℕ → List ℕ → ℕ
be_value acc [] = acc
be_value acc (b ∷ bs) = be_value (acc * 256 + b) bs

-- `binary.LittleEndian.PutUint64` and its big-endian twin, on a buffer of 8 bytes or more.
unfoldable pub put_uint64_le : List ℕ → ℕ → Outcome (List ℕ)
put_uint64_le buf v = if ltb (length buf) 8 then panic else done (le_bytes 8 v ++ drop 8 buf)

unfoldable pub put_uint64_be : List ℕ → ℕ → Outcome (List ℕ)
put_uint64_be buf v = if ltb (length buf) 8 then panic else done (be_bytes 8 v ++ drop 8 buf)

-- `binary.LittleEndian.Uint64`, and big-endian: the first 8 bytes.
unfoldable pub uint64_le : List ℕ → Outcome ℕ
uint64_le b = if ltb (length b) 8 then panic else done (le_value (take 8 b))

unfoldable pub uint64_be : List ℕ → Outcome ℕ
uint64_be b = if ltb (length b) 8 then panic else done (be_value 0 (take 8 b))

-- `b[:n]` of a slice made with no spare capacity.
unfoldable pub slice_to : List ℕ → ℕ → Outcome (List ℕ)
slice_to b n = if ltb (length b) n then panic else done (take n b)

unfoldable pub to_bytes : ℕ → ℕ → Outcome (List ℕ)
to_bytes x len = do
  let make_length = if ltb len 8 then 8 else len
  bytes ← put_uint64_le (replicate make_length 0) x
  slice_to bytes len

unfoldable pub bytes1 : ℕ → Outcome (List ℕ)
bytes1 x = do bytes ← put_uint64_le (replicate 8 0) x; slice_to bytes 1

unfoldable pub bytes2 : ℕ → Outcome (List ℕ)
bytes2 x = do bytes ← put_uint64_le (replicate 8 0) x; slice_to bytes 2

unfoldable pub bytes3 : ℕ → Outcome (List ℕ)
bytes3 x = do bytes ← put_uint64_le (replicate 8 0) x; slice_to bytes 3

unfoldable pub bytes4 : ℕ → Outcome (List ℕ)
bytes4 x = do bytes ← put_uint64_le (replicate 8 0) x; slice_to bytes 4

unfoldable pub bytes8 : ℕ → Outcome (List ℕ)
bytes8 x = put_uint64_le (replicate 8 0) x

unfoldable pub bytes32 : ℕ → Outcome (List ℕ)
bytes32 x = put_uint64_le (replicate 32 0) x

unfoldable pub from_bytes8 : List ℕ → Outcome ℕ
from_bytes8 x = uint64_le x

-- `ToLowInt64`: the guard cuts a long slice; a short one reaches `Uint64` as it is.
unfoldable pub to_low_int64 : List ℕ → Outcome ℤ
to_low_int64 x = do u ← uint64_le (if ltb 8 (length x) then take 8 x else x); done (to_int64 u)

unfoldable pub uint64_to_bytes_little_endian : ℕ → Outcome (List ℕ)
uint64_to_bytes_little_endian i = put_uint64_le (replicate 8 0) i

unfoldable pub uint64_to_bytes_big_endian : ℕ → Outcome (List ℕ)
uint64_to_bytes_big_endian i = put_uint64_be (replicate 8 0) i

unfoldable pub bytes_to_uint64_big_endian : List ℕ → Outcome ℕ
bytes_to_uint64_big_endian b = if ltb (length b) 8 then done 0 else uint64_be b

unfoldable pub to_bool : ℕ → Bool
to_bool x = bit_and x 1 == 1

unfoldable pub from_bool : Bool → ℕ
from_bool x = if x then 1 else 0
