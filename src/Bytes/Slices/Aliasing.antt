-- ===== src/Bytes/Slices/Aliasing.antt =====
-- bytesutil/bytes.go: what `FromBytes4` does to the slice of its caller.
use eth_research.Base.{
  ℕ, ◌≡◌, refl, List, [], ◌∷◌, ◌++◌, ltb, if◌then◌else◌, length, take, drop, done, panic, arith,
}
use eth_research.Bytes.Integers.{le_value, uint64_le}
use eth_research.Bytes.Slices.{from_bytes4, append, reslice}

abbrev pub four_zeros : List ℕ
four_zeros = 0 ∷ 0 ∷ 0 ∷ 0 ∷ []

-- `FromBytes4` panics when the capacity is below 4. Otherwise it reads the first 4 elements, and
-- the array behind the caller's slice is as before when the capacity is below 8; from 8 on its
-- elements 4 to 7 are overwritten with zeros.
pub from_bytes4_lem :
    (array : List ℕ) (n : ℕ)
    → from_bytes4 (record { array = array; len = n }) ≡ (
        if ltb (length array) 4
        then panic
        else done (
          le_value (take 4 array),
          record {
            array =
                if ltb (length array) 8
                then array
                else take 4 array ++ (four_zeros ++ drop 8 array);
            len = n;
          },
        ))
unfolding from_bytes4 append reslice uint64_le le_value
from_bytes4_lem [] n = refl
from_bytes4_lem (a ∷ []) n = refl
from_bytes4_lem (a ∷ b ∷ []) n = refl
from_bytes4_lem (a ∷ b ∷ c ∷ []) n = refl
from_bytes4_lem (a ∷ b ∷ c ∷ d ∷ []) n = refl
from_bytes4_lem (a ∷ b ∷ c ∷ d ∷ e ∷ []) n = refl
from_bytes4_lem (a ∷ b ∷ c ∷ d ∷ e ∷ f ∷ []) n = refl
from_bytes4_lem (a ∷ b ∷ c ∷ d ∷ e ∷ f ∷ g ∷ []) n = refl
from_bytes4_lem (a ∷ b ∷ c ∷ d ∷ e ∷ f ∷ g ∷ h ∷ rest) n = ground arith
