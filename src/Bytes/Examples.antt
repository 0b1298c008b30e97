-- ===== src/Bytes/Examples.antt =====
-- bytesutil/bytes.go: runs, and the theorems at concrete inputs.
use eth_research.Base.{
  ℕ, ◌+◌, ◌-◌, ◌/◌, ◌%◌, ◌^◌, ◌≤◌, ◌<◌, ◌≡◌, refl, ◌⊎◌, List, [], ◌∷◌, length, reverse, max, All,
  arith, done, panic, ◌>>=◌, ok,
}
use eth_research.Base.Int.{negsuc, to_int64}
use eth_research.Bytes.Integers.{
  IsByte, le_bytes, le_value, to_bytes, put_uint64_le, uint64_le, slice_to, to_low_int64,
  uint64_to_bytes_big_endian, bytes_to_uint64_big_endian, uint64_to_bytes_little_endian,
}
use eth_research.Bytes.Integers.RoundTrip.{to_bytes_lem}
use eth_research.Bytes.Integers.BigEndian.{big_endian_round_trip}
use eth_research.Bytes.Slices.{from_bytes4, reverse_bytes32_slice}
use eth_research.Bytes.Slices.Aliasing.{from_bytes4_lem}
use eth_research.Bytes.Slices.Reversal.{reverse_bytes32_slice-reverse}
use eth_research.Bytes.Bitlists.{
  bit_at, grow, set_bit, bit_len, len8, highest_loop, highest_bit_index, highest_at_loop,
  highest_bit_index_at,
}
use eth_research.Bytes.Bitlists.Writes.{bit_at-set_bit}
use eth_research.Bytes.Bitlists.HighestAt.{highest_bit_index_at_lem}

abbrev eight : List ℕ
eight = 1 ∷ 2 ∷ 3 ∷ 4 ∷ 5 ∷ 6 ∷ 7 ∷ 8 ∷ []

to_bytes_short : to_bytes 0x0102 1 ≡ done (2 ∷ [])
unfolding to_bytes put_uint64_le slice_to le_bytes
to_bytes_short = refl

to_low_int64_minus_one : to_low_int64 (le_bytes 8 0xffff_ffff_ffff_ffff) ≡ done (negsuc 0)
unfolding to_low_int64 le_bytes uint64_le le_value to_int64
to_low_int64_minus_one = refl

-- "The lowest 8 bytes" of a shorter slice are not there: `ToLowInt64` panics.
to_low_int64_short : to_low_int64 (1 ∷ 2 ∷ []) ≡ panic
unfolding to_low_int64 uint64_le
to_low_int64_short = refl

set_bit_grows : set_bit (4 ∷ []) 10 ≡ 4 ∷ 4 ∷ []
unfolding set_bit grow
set_bit_grows = refl

highest_bit_index_run : highest_bit_index (1 ∷ 4 ∷ 0 ∷ []) ≡ ok 11
unfolding highest_bit_index highest_loop len8 bit_len
highest_bit_index_run = refl

highest_bit_index_at_run : highest_bit_index_at (9 ∷ 4 ∷ []) 3 ≡ ok 1
unfolding highest_bit_index_at highest_at_loop len8 bit_len
highest_bit_index_at_run = refl

to_bytes_lem_example :
    (out : List ℕ) × (to_bytes 0x0102 3 ≡ done out)
    × (length out ≡ 3)
    × All IsByte out
    × (le_value out ≡ 0x0102 % 256 ^ 3)
to_bytes_lem_example = to_bytes_lem 0x0102 3 (omega arith)

big_endian_round_trip_example :
    ((uint64_to_bytes_big_endian 300 >>= bytes_to_uint64_big_endian) ≡ done 300)
    × (uint64_to_bytes_big_endian 300
        ≡ (uint64_to_bytes_little_endian 300 >>= λ b. done (reverse b)))
big_endian_round_trip_example = big_endian_round_trip 300 (omega arith)

from_bytes4_lem_example :
    from_bytes4 (record { array = eight; len = 8 })
    ≡ done (
      le_value (1 ∷ 2 ∷ 3 ∷ 4 ∷ []),
      record { array = 1 ∷ 2 ∷ 3 ∷ 4 ∷ 0 ∷ 0 ∷ 0 ∷ 0 ∷ []; len = 8 },
    )
from_bytes4_lem_example = from_bytes4_lem eight 8

reverse_bytes32_slice-reverse_example :
    reverse_bytes32_slice ((1 ∷ []) ∷ (2 ∷ []) ∷ (3 ∷ []) ∷ [])
    ≡ reverse ((1 ∷ []) ∷ (2 ∷ []) ∷ (3 ∷ []) ∷ [])
reverse_bytes32_slice-reverse_example =
    reverse_bytes32_slice-reverse ((1 ∷ []) ∷ (2 ∷ []) ∷ (3 ∷ []) ∷ [])

bit_at-set_bit_example :
    (bit_at (set_bit (4 ∷ []) 10) 2 ≡ bit_at (4 ∷ []) 2)
    × (length (set_bit (4 ∷ []) 10) ≡ max 1 (10 / 8 + 1))
bit_at-set_bit_example = bit_at-set_bit (4 ∷ []) 10 2

highest_bit_index_at_lem_example :
    (1 ≤ 3)
    × ((◌≡◌ {A = ℕ} 1 0) ⊎ (bit_at (9 ∷ 4 ∷ []) (1 - 1) ≡ 1))
    × ((2 < 1) ⊎ (3 ≤ 2) ⊎ (bit_at (9 ∷ 4 ∷ []) 2 ≡ 0))
highest_bit_index_at_lem_example =
    highest_bit_index_at_lem (9 ∷ 4 ∷ []) 3 1 2 (omega arith) highest_bit_index_at_run
