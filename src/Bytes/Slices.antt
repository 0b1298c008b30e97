-- ===== src/Bytes/Slices.antt =====
-- bytesutil/bytes.go: fixed-size arrays, copies, padding, reversal, and the functions that cut a
-- slice and append to it. Where a function can see the capacity of its argument, or write
-- behind its end, the argument is a `Slice`; elsewhere it is the list of its elements.
pub mod Aliasing
pub mod Reversal
pub mod Copies
use eth_research.Base.{
  ℕ, zero, suc, ◌+◌, ◌-◌, ◌*◌, ◌%◌, Option, none, some, List, [], ◌∷◌, ◌++◌, ltb, leb,
  if◌then◌else◌, length, take, drop, replicate, get_or, set, Outcome, done, panic, ◌>>=◌,
}
use eth_research.Bytes.Integers.{le_value, uint64_le}

-- A slice: the array behind it from its first element to its capacity, and its length.
pub record Slice : Type 0 where
  pub array : List ℕ
  pub len : ℕ

abbrev pub visible : Slice → List ℕ
visible s = take s.len s.array

-- `s[:n]` may go past the length, up to the capacity.
unfoldable pub reslice : Slice → ℕ → Outcome Slice
reslice s n = if ltb (length s.array) n then panic else done (record s { len = n })

-- `append(s, ys...)`, and the array behind `s` afterwards: with enough capacity the elements are
-- written into that array, and otherwise a copy is made (of which only the elements matter).
unfoldable pub append : Slice → List ℕ → Slice × List ℕ
append s ys =
    let end = s.len + length ys in
    let written = take s.len s.array ++ (ys ++ drop end s.array) in
    if ltb (length s.array) end
    then (record { array = take s.len s.array ++ ys; len = end }, s.array)
    else (record { array = written; len = end }, written)

-- `FromBytes4`: the number, and the caller's slice afterwards.
unfoldable pub from_bytes4 : Slice → Outcome (ℕ × Slice)
from_bytes4 x = do
  let empty4bytes = replicate 4 0
  x4 ← reslice x 4
  let (bytes, array) = append x4 empty4bytes
  v ← uint64_le (visible bytes)
  done (v, record x { array = array })

-- `FromBytes2`, with `binary.LittleEndian.Uint16` of exactly 2 bytes.
unfoldable pub from_bytes2 : Slice → Outcome ℕ
from_bytes2 x = do x2 ← reslice x 2; done (le_value (visible x2))

-- `copy(dst, src)`: as many elements as both have.
unfoldable pub copy {ℓ} : {A : Type ℓ} → List A → List A → List A
copy [] src = []
copy (d ∷ dst) [] = d ∷ dst
copy (d ∷ dst) (s ∷ src) = s ∷ copy dst src

unfoldable pub to_bytes4 : List ℕ → List ℕ
to_bytes4 x = copy (replicate 4 0) x

unfoldable pub to_bytes32 : List ℕ → List ℕ
to_bytes32 x = copy (replicate 32 0) x

unfoldable pub to_bytes48 : List ℕ → List ℕ
to_bytes48 x = copy (replicate 48 0) x

unfoldable pub to_bytes64 : List ℕ → List ℕ
to_bytes64 x = copy (replicate 64 0) x

-- `x[:]` of a fixed-size array is all of it.
unfoldable pub from_bytes48 : List ℕ → List ℕ
from_bytes48 x = take 48 x

unfoldable pub from_bytes48_array : List (List ℕ) → List (List ℕ)
from_bytes48_array [] = []
from_bytes48_array (x ∷ xs) = from_bytes48 x ∷ from_bytes48_array xs

unfoldable pub trunc : List ℕ → List ℕ
trunc x = if ltb 6 (length x) then take 6 x else x

-- `none` is a nil slice.
unfoldable pub safe_copy_bytes : Option (List ℕ) → Option (List ℕ)
safe_copy_bytes none = none
safe_copy_bytes (some cp) = some (copy (replicate (length cp) 0) cp)

-- The loop of `Copy2dBytes` fills an array that has its length from the start.
unfoldable pub copy_each : List (Option (List ℕ)) → List (Option (List ℕ))
copy_each [] = []
copy_each (a ∷ ary) = safe_copy_bytes a ∷ copy_each ary

unfoldable pub copy_2d_bytes : Option (List (Option (List ℕ))) → Option (List (Option (List ℕ)))
copy_2d_bytes none = none
copy_2d_bytes (some ary) = some (copy_each ary)

-- One exchange, `arr[i], arr[j] = arr[j], arr[i]`. Both indices are in range where it is called.
unfoldable pub swap : List (List ℕ) → ℕ → ℕ → List (List ℕ)
swap arr i j = set (set arr i (get_or arr j [])) j (get_or arr i [])

-- The loop of `ReverseBytes32Slice`. Of an empty slice `j` starts at -1 and the loop does not
-- run; nor does it from 0.
unfoldable pub reverse_loop : ℕ → ℕ → ℕ → List (List ℕ) → List (List ℕ)
reverse_loop zero i j arr = arr
reverse_loop (suc fuel) i j arr =
    let rest = reverse_loop fuel (i + 1) (j - 1) (swap arr i j) in if ltb i j then rest else arr

-- The length is enough fuel: each round brings `i` and `j` closer.
unfoldable pub reverse_bytes32_slice : List (List ℕ) → List (List ℕ)
reverse_bytes32_slice arr = reverse_loop (length arr) 0 (length arr - 1) arr

unfoldable pub pad_to : List ℕ → ℕ → List ℕ
pad_to b size = if ltb size (length b) then b else b ++ replicate (size - length b) 0
