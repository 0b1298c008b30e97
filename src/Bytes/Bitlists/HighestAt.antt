-- ===== src/Bytes/Bitlists/HighestAt.antt =====
-- bytesutil/bytes.go: what `HighestBitIndexAt` returns.
mod Rounds
use Rounds.{
  low_mask, part, Found, below_index, first_round, Found-part, Found-highest_loop, blank_above,
}
use eth_research.Base.{
  ℕ, zero, suc, ◌+◌, ◌-◌, ◌*◌, ◌/◌, ◌%◌, ◌^◌, ◌≤◌, ◌<◌, ◌≡◌, ◌≢◌, refl, sym, ap, ◌∙◌, ◌⊎◌, inl, inr,
  List, [], ◌∷◌, true, ◌&&◌, ◌||◌, ltb, lt→ltb, leb, ◌==◌, ==_iff, if◌then◌else◌, Bool-cases,
  length, get_or, get_or-past, All, All-get_or, arith, ok, err, bit_and, min,
}
use eth_research.Base.Bits.{
  bit, bit-zero, bit-bit_and, bit-le_one, bit_and-le, all_below, all_below_sound,
}
use eth_research.Bytes.Integers.{IsByte}
use eth_research.Bytes.Bitlists.{
  bit_at, len8, highest_loop, highest_at_loop, highest_bit_index_at, empty_list,
}
use eth_research.Bytes.Bitlists.Highest.{
  SetBelow, SetBelow-len8, get_or-IsByte, byte_bit, len8_above, len8_zero, len8_top, len8-le,
  highest_loop_above, highest_loop-le, len8-zero, highest_loop-SetBelow,
}

past_end : (b : List ℕ) (p : ℕ) → length b * 8 ≤ p → bit_at b p ≡ 0
past_end b p h =
    let z : get_or b (p / 8) 0 ≡ 0 = get_or-past b (p / 8) 0 (omega arith) in
    rw z (bit-zero (p % 8))

-- The answer when the index lies behind the list, and when it lies in it.
answer_past :
    (b : List ℕ) (index : ℕ)
    → All IsByte b
    → length b ≢ 0
    → length b ≤ index / 8
    → highest_bit_index_at b index ≡ ok (highest_loop b (length b))
unfolding highest_bit_index_at
answer_past b index bytes some_byte long =
    let last : length b - 1 + 1 ≡ length b = omega arith in
    ground (
      arith,
      ap (λ n. highest_at_loop b index n (low_mask (index % 8))) last,
      below_index b index (length b) (low_mask (index % 8)) bytes long,
    )

answer_inside :
    (b : List ℕ) (index : ℕ)
    → All IsByte b
    → index / 8 < length b
    → highest_bit_index_at b index
      ≡ ok (
          if len8 (part b index) == 0
          then highest_loop b (index / 8)
          else len8 (part b index) + index / 8 * 8)
unfolding highest_bit_index_at
answer_inside b index bytes inside =
    let next : index / 8 + 1 ≡ suc (index / 8) = omega arith in
    ground (
      arith,
      ap (λ n. highest_at_loop b index n (low_mask (index % 8))) next,
      first_round b index bytes,
    )

Found-answer :
    (b : List ℕ) (index p : ℕ)
    → (bytes : All IsByte b)
    → Found b index bytes
        (if len8 (part b index) == 0
          then highest_loop b (index / 8)
          else len8 (part b index) + index / 8 * 8)
        p
Found-answer b index p bytes = elim (Bool-cases (len8 (part b index) == 0)) [
  | inl blank ↦
      let z : len8 (part b index) ≡ 0 = ground arith in
      rw blank (
        Found-highest_loop b index bytes (index / 8) p (omega arith)
          (λ q lo hi. blank_above b index bytes q (omega arith) hi))
  | inr found ↦ rw found (Found-part b index bytes p (λ z. nonzero z (ground arith)))
]
  where
    nonzero : part b index ≡ 0 → len8 (part b index) ≢ 0 → ⊥
    nonzero z ne = ne (rw z len8-zero)

not_empty :
    (b : List ℕ) (index : ℕ) {r : ℕ} → length b ≡ 0 → highest_bit_index_at b index ≡ ok r → ⊥
unfolding highest_bit_index_at
not_empty b index z e = ground arith

ok_value :
    (b : List ℕ) (index : ℕ) {a r : ℕ}
    → highest_bit_index_at b index ≡ ok a
    → highest_bit_index_at b index ≡ ok r
    → a ≡ r
ok_value b index p q = cc

-- When `HighestBitIndexAt` of a list of bytes answers `r`, then `r` is at most the index, either
-- `r` is 0 or bit `r - 1` is set, and every position `p` is below `r`, or not below the index, or
-- not set.
pub highest_bit_index_at_lem :
    (b : List ℕ) (index r p : ℕ)
    → All IsByte b
    → highest_bit_index_at b index ≡ ok r
    → (r ≤ index) × ((r ≡ 0) ⊎ (bit_at b (r - 1) ≡ 1)) × ((p < r) ⊎ (index ≤ p) ⊎ (bit_at b p ≡ 0))
highest_bit_index_at_lem b index r p bytes e = elim (Bool-cases (leb (length b) (index / 8))) [
  | inl long ↦
      let same : highest_loop b (length b) ≡ r =
        ground (arith, answer_past b index bytes (λ z. not_empty b index z e) (ground arith)) in
      rw same at
        (Found-highest_loop b index bytes (length b) p (ground arith) (λ q lo hi. past_end b q lo))
  | inr inside ↦
      let same = ok_value b index (answer_inside b index bytes (ground arith)) e in
      rw same at (Found-answer b index p bytes)
]
