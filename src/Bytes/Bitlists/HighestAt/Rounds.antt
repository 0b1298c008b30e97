-- ===== src/Bytes/Bitlists/HighestAt/Rounds.antt =====
-- bytesutil/bytes.go: the rounds of `HighestBitIndexAt`, in the byte of the index and below it.
use eth_research.Base.{
  ℕ, zero, suc, ◌+◌, ◌-◌, ◌*◌, ◌/◌, ◌%◌, ◌^◌, ◌≤◌, ◌<◌, ◌≡◌, ◌≢◌, refl, ◌⊎◌, inl, inr, List, true,
  ltb, lt→ltb, ◌==◌, ==_iff, if◌then◌else◌, Bool-cases, get_or, All, arith, bit_and,
}
use eth_research.Base.Bits.{bit, bit-bit_and, bit-le_one, bit_and-le, all_below, all_below_sound}
use eth_research.Bytes.Integers.{IsByte}
use eth_research.Bytes.Bitlists.{bit_at, len8, highest_loop, highest_at_loop}
use eth_research.Bytes.Bitlists.Highest.{
  SetBelow, SetBelow-len8, get_or-IsByte, byte_bit, len8_above, len8_top, len8-le,
  highest_loop_above, highest_loop-le, len8-zero, highest_loop-SetBelow,
}

abbrev pub low_mask : ℕ → ℕ
low_mask k = (2 ^ k - 1) % 256

low_mask_table :
    all_below 8 (λ a. all_below 8 (λ k. bit (low_mask a) k == (if ltb k a then 1 else 0))) ≡ true
unfolding all_below
low_mask_table = refl

bit-low_mask : (a k : ℕ) → a < 8 → k < 8 → bit (low_mask a) k ≡ (if ltb k a then 1 else 0)
bit-low_mask a k ha hk =
    (==_iff _ _).0 (all_below_sound 8 _ k (all_below_sound 8 _ a low_mask_table ha) hk)

full_table : all_below 256 (λ x. bit_and x 255 == x) ≡ true
unfolding all_below
full_table = refl

bit_and_full : (x : ℕ) → IsByte x → bit_and x 255 ≡ x
bit_and_full x h = (==_iff _ _).0 (all_below_sound 256 _ x full_table h)

-- Below the byte of the index the mask is full, and the loop is that of `HighestBitIndex`.
pub below_index :
    (b : List ℕ) (index n mask : ℕ)
    → All IsByte b
    → n ≤ index / 8
    → highest_at_loop b index n mask ≡ highest_loop b n
unfolding highest_at_loop highest_loop
below_index b index zero mask h low = refl
below_index b index (suc i) mask h low = ground (
  arith,
  lt→ltb i (index / 8),
  bit_and_full (get_or b i 0) (get_or-IsByte b i h),
  below_index b index i 255 h,
)

-- The part of byte `i` that lies below the index, when that is the byte of the index.
abbrev pub part : List ℕ → ℕ → ℕ
part b index = bit_and (get_or b (index / 8) 0) (low_mask (index % 8))

where_is : {P : Type 0} {index : ℕ} (p r : ℕ) → (r ≤ p → p < index → P) → (p < r) ⊎ (index ≤ p) ⊎ P
where_is {index = index} p r blank = elim (Bool-cases (ltb p r)) [
  | inl below ↦ inl (ground arith)
  | inr above ↦ elim (Bool-cases (ltb p index)) [
    | inl before ↦ inr (inr (blank (ground arith) (ground arith)))
    | inr after ↦ inr (inl (ground arith))
  ]
]

module _ (b : List ℕ) (index : ℕ) (bytes : All IsByte b) where
  part-IsByte : IsByte (part b index)
  part-IsByte = omega (
    arith,
    get_or-IsByte b (index / 8) bytes,
    bit_and-le 8 (get_or b (index / 8) 0) (low_mask (index % 8))
        (get_or-IsByte b (index / 8) bytes),
  )

  bit-part :
      (k : ℕ)
      → k < 8
      → bit (part b index) k ≡ (if ltb k (index % 8) then bit (get_or b (index / 8) 0) k else 0)
  bit-part k h = ground (
    arith,
    bit-bit_and k (get_or b (index / 8) 0) (low_mask (index % 8)),
    bit-low_mask (index % 8) k (omega arith) h,
    bit-le_one k (get_or b (index / 8) 0),
  )

  part_blank : get_or b (index / 8) 0 ≡ 0 → len8 (part b index) ≡ 0
  part_blank e =
      let z : part b index ≡ 0 = omega (
        arith,
        bit_and-le 8 (get_or b (index / 8) 0) (low_mask (index % 8))
            (get_or-IsByte b (index / 8) bytes),
      ) in
      rw z len8-zero

  -- The first round of the loop, in the byte of the index.
  pub first_round : highest_at_loop b index (suc (index / 8)) (low_mask (index % 8)) ≡ (
      if len8 (part b index) == 0
      then highest_loop b (index / 8)
      else len8 (part b index) + index / 8 * 8)
  unfolding highest_at_loop
  first_round = ground (
    arith,
    below_index b index (index / 8) (low_mask (index % 8)) bytes (omega arith),
    bit_and-le 8 (get_or b (index / 8) 0) (low_mask (index % 8))
        (get_or-IsByte b (index / 8) bytes),
    part_blank,
  )

  abbrev pub Found : ℕ → ℕ → Type 0
  Found r p = (r ≤ index) × SetBelow b r × ((p < r) ⊎ (index ≤ p) ⊎ (bit_at b p ≡ 0))

  -- A bit of the part is a bit of the byte, and lies below the index.
  bit-part_one :
      (k : ℕ)
      → k < 8
      → bit (part b index) k ≡ 1
      → (k < index % 8) × (bit (get_or b (index / 8) 0) k ≡ 1)
  bit-part_one k h e = ground (arith, bit-part k h)

  len8-part-le : len8 (part b index) ≤ index % 8
  len8-part-le = go (len8 (part b index)) refl
    where
      go : (l : ℕ) → len8 (part b index) ≡ l → l ≤ index % 8
      go zero e = omega arith
      go (suc m) e =
          (bit-part_one m (omega (arith, len8-le (part b index)))
            (len8_top (part b index) m part-IsByte e)).0

  pub blank_above : (p : ℕ) → len8 (part b index) + index / 8 * 8 ≤ p → p < index → bit_at b p ≡ 0
  blank_above p above below = ground (
    arith,
    byte_bit b (index / 8) p (omega arith) (omega arith),
    bit-part (p - index / 8 * 8) (omega arith),
    len8_above (part b index) (p - index / 8 * 8) part-IsByte (omega arith),
  )

  pub Found-part : (p : ℕ) → part b index ≢ 0 → Found (len8 (part b index) + index / 8 * 8) p
  Found-part p ne = (
    omega (arith, len8-part-le),
    SetBelow-len8 b (index / 8) (part b index) part-IsByte (λ k low e. (bit-part_one k low e).1) ne,
    where_is p (len8 (part b index) + index / 8 * 8) (blank_above p),
  )

  pub Found-highest_loop :
      (n p : ℕ)
      → n ≤ index / 8
      → ((q : ℕ) → n * 8 ≤ q → q < index → bit_at b q ≡ 0)
      → Found (highest_loop b n) p
  Found-highest_loop n p low blank = (
    omega (arith, highest_loop-le b n),
    highest_loop-SetBelow b n bytes,
    where_is p (highest_loop b n) (λ above below. elim (Bool-cases (ltb p (n * 8))) [
      | inl inside ↦ highest_loop_above b n p bytes above (ground arith)
      | inr past ↦ blank p (ground arith) below
    ]),
  )
