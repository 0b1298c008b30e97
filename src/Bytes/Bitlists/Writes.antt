-- ===== src/Bytes/Bitlists/Writes.antt =====
-- bytesutil/bytes.go: what `SetBit` and `ClearBit` do to each bit, and to the bytes.
use eth_research.Base.{
  ℕ, zero, suc, ◌+◌, ◌-◌, ◌*◌, ◌/◌, ◌%◌, ◌^◌, ◌≤◌, ◌<◌, ◌≡◌, refl, ap, inl, inr, List, [], ◌∷◌,
  ◌++◌, true, leb, ◌==◌, ==_iff, if◌then◌else◌, Bool-cases, length, replicate, get_or, get_or-set,
  get_or-append_default, get_or-past, length-append, length-replicate, length-set, set, bit_and,
  bit_or, bit_xor, max, All, All-get_or, arith,
}
use eth_research.Base.Bits.{
  bit, bit-zero, bit-bit_or, bit-bit_and, bit-le_one, bit_or-below, bit_and-le, all_below,
  all_below_sound,
}
use eth_research.Bytes.Integers.{IsByte}
use eth_research.Bytes.Bitlists.{bit_at, bit_mask, grow, set_bit, clear_bit}

-- The mask of bit `i` has that bit alone, and its complement has all the others.
mask_table :
    all_below 8 (λ a. all_below 8 (λ k. bit (2 ^ a % 256) k == (if a == k then 1 else 0))) ≡ true
unfolding all_below
mask_table = refl

complement_table :
    all_below 8
      (λ a. all_below 8 (λ k. bit (bit_xor (2 ^ a % 256) 255) k == (if a == k then 0 else 1)))
    ≡ true
unfolding all_below
complement_table = refl

bit-mask : (i k : ℕ) → k < 8 → bit (bit_mask i) k ≡ (if i % 8 == k then 1 else 0)
bit-mask i k h =
    (==_iff _ _).0 (all_below_sound 8 _ k (all_below_sound 8 _ (i % 8) mask_table (omega arith)) h)

bit-complement :
    (i k : ℕ) → k < 8 → bit (bit_xor (bit_mask i) 255) k ≡ (if i % 8 == k then 0 else 1)
bit-complement i k h =
    (==_iff _ _).0
      (all_below_sound 8 _ k (all_below_sound 8 _ (i % 8) complement_table (omega arith)) h)

get_or-grow : (b : List ℕ) (i k : ℕ) → get_or (grow b i) k 0 ≡ get_or b k 0
unfolding grow
get_or-grow b i k = ground (arith, get_or-append_default b ((i + (8 - i % 8)) / 8 - length b) k 0)

length-grow : (b : List ℕ) (i : ℕ) → length (grow b i) ≡ max (length b) (i / 8 + 1)
unfolding grow
length-grow b i = ground (
  arith,
  length-append b (replicate ((i + (8 - i % 8)) / 8 - length b) 0),
  length-replicate {A = ℕ} ((i + (8 - i % 8)) / 8 - length b) 0,
)

bit_at-set :
    (b : List ℕ) (i j v : ℕ)
    → i / 8 < length b
    → bit_at (set b (i / 8) v) j ≡ (if i / 8 == j / 8 then bit v (j % 8) else bit_at b j)
bit_at-set b i j v h = elim (Bool-cases (i / 8 == j / 8)) [
  | inl same ↦ rw (same, (get_or-set b (i / 8) (j / 8) v 0 h).0 (ground arith)) refl
  | inr other ↦ rw (other, (get_or-set b (i / 8) (j / 8) v 0 h).1 (ground arith)) refl
]

bit_at-grow : (b : List ℕ) (i j : ℕ) → bit_at (grow b i) j ≡ bit_at b j
bit_at-grow b i j = ap (λ x. bit x (j % 8)) (get_or-grow b i (j / 8))

-- One byte: the bit of the mask is set or cleared, and the others stay.
or_mask :
    (x i j : ℕ)
    → i / 8 ≡ j / 8
    → bit (bit_or x (bit_mask i)) (j % 8) ≡ (if i == j then 1 else bit x (j % 8))
or_mask x i j same = ground (
  arith,
  bit-bit_or (j % 8) x (bit_mask i),
  bit-mask i (j % 8) (omega arith),
  bit-le_one (j % 8) x,
)

and_complement :
    (x i j : ℕ)
    → i / 8 ≡ j / 8
    → bit (bit_and x (bit_xor (bit_mask i) 255)) (j % 8) ≡ (if i == j then 0 else bit x (j % 8))
and_complement x i j same = ground (
  arith,
  bit-bit_and (j % 8) x (bit_xor (bit_mask i) 255),
  bit-complement i (j % 8) (omega arith),
  bit-le_one (j % 8) x,
)

-- `SetBit` sets bit `i`, leaves every other bit as it was, also when it has to grow the list,
-- and makes the list just long enough for the bit.
pub bit_at-set_bit :
    (b : List ℕ) (i j : ℕ)
    → (bit_at (set_bit b i) j ≡ (if i == j then 1 else bit_at b j))
      × (length (set_bit b i) ≡ max (length b) (i / 8 + 1))
unfolding set_bit
bit_at-set_bit b i j =
    let old = get_or (grow b i) (i / 8) 0 in
    let fits : i / 8 < length (grow b i) = omega (arith, length-grow b i) in
    (
      ground (
        arith,
        bit_at-set (grow b i) i j (bit_or old (bit_mask i)) fits,
        or_mask old i j,
        bit_at-grow b i j,
      ),
      rw length-set (length-grow b i),
    )

clear_past :
    (b : List ℕ) (i j : ℕ) → length b * 8 ≤ i → bit_at b j ≡ (if i == j then 0 else bit_at b j)
clear_past b i j h = elim (Bool-cases (i == j)) [
  | inl same ↦
      let e : get_or b (j / 8) 0 ≡ 0 = get_or-past b (j / 8) 0 (ground arith) in
      rw (same, e) (bit-zero (j % 8))
  | inr other ↦ rw other
]

-- `ClearBit` clears bit `i`, leaves every other bit as it was, and never changes the length.
pub bit_at-clear_bit :
    (b : List ℕ) (i j : ℕ)
    → (bit_at (clear_bit b i) j ≡ (if i == j then 0 else bit_at b j))
      × (length (clear_bit b i) ≡ length b)
unfolding clear_bit
bit_at-clear_bit b i j = elim (Bool-cases (leb (length b * 8) i)) [
  | inl past ↦ rw past (clear_past b i j (ground arith), refl)
  | inr inside ↦
      let old = get_or b (i / 8) 0 in
      rw inside (
        ground (
          arith,
          bit_at-set b i j (bit_and old (bit_xor (bit_mask i) 255)) (ground arith),
          and_complement old i j,
        ),
        rw length-set refl,
      )
]

set-IsByte : (b : List ℕ) (i v : ℕ) → All IsByte b → IsByte v → All IsByte (set b i v)
set-IsByte [] i v h p = tt
set-IsByte (x ∷ b) zero v h p = (p, h.1)
set-IsByte (x ∷ b) (suc i) v h p = (h.0, set-IsByte b i v h.1 p)

zeros-IsByte : (b : List ℕ) (n : ℕ) → All IsByte b → All IsByte (b ++ replicate n 0)
zeros-IsByte [] zero h = tt
zeros-IsByte [] (suc n) h = (omega arith, zeros-IsByte [] n h)
zeros-IsByte (x ∷ b) n h = (h.0, zeros-IsByte b n h.1)

grow-IsByte : (b : List ℕ) (i : ℕ) → All IsByte b → All IsByte (grow b i)
unfolding grow
grow-IsByte b i h = ground (arith, zeros-IsByte b ((i + (8 - i % 8)) / 8 - length b) h)

-- Both writes keep every element a byte.
pub writes-IsByte :
    (b : List ℕ) (i : ℕ) → All IsByte b → All IsByte (set_bit b i) × All IsByte (clear_bit b i)
unfolding set_bit clear_bit
writes-IsByte b i h =
    let x = get_or (grow b i) (i / 8) 0 in
    let y = get_or b (i / 8) 0 in
    let x_byte : IsByte x =
      All-get_or IsByte (grow b i) (i / 8) 0 (grow-IsByte b i h) (omega arith) in
    let y_byte : IsByte y = All-get_or IsByte b (i / 8) 0 h (omega arith) in
    (
      set-IsByte (grow b i) (i / 8) (bit_or x (bit_mask i)) (grow-IsByte b i h)
          (bit_or-below 8 x (bit_mask i) x_byte (omega arith)),
      ground (
        arith,
        h,
        set-IsByte b (i / 8) (bit_and y (bit_xor (bit_mask i) 255)) h
            (omega (arith, bit_and-le 8 y (bit_xor (bit_mask i) 255) y_byte)),
      ),
    )
