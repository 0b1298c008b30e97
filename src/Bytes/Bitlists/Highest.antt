-- ===== src/Bytes/Bitlists/Highest.antt =====
-- bytesutil/bytes.go: what `HighestBitIndex` returns.
use eth_research.Base.{
  ℕ, zero, suc, ◌+◌, ◌-◌, ◌*◌, ◌/◌, ◌%◌, ◌^◌, ◌≤◌, ◌<◌, ◌≡◌, ◌≢◌, refl, ◌∙◌, ◌⊎◌, inl, inr, List,
  ltb, ◌==◌, Bool-cases, length, get_or, get_or-past, All, All-get_or, arith, ok,
}
use eth_research.Base.Bits.{bit, bit-zero}
use eth_research.Bytes.Integers.{IsByte}
use eth_research.Bytes.Bitlists.{bit_at, bit_len, len8, highest_loop, highest_bit_index}
use native.Mathlib.Nat.{pow-succ'}

-- `r` is one more than the position of a bit that is set, or 0.
abbrev pub SetBelow : List ℕ → ℕ → Type 0
SetBelow b r = (r ≡ 0) ⊎ (bit_at b (r - 1) ≡ 1)

pub bit_len_zero : (k x : ℕ) → x < 2 ^ k → bit_len k x ≡ 0 → x ≡ 0
unfolding bit_len
bit_len_zero zero x h e = omega arith
bit_len_zero (suc k) x h e = ground arith

bit_len-le : (k x : ℕ) → bit_len k x ≤ k
unfolding bit_len
bit_len-le zero x = omega arith
bit_len-le (suc k) x = ground (arith, bit_len-le k (x / 2))

bit_len_top : (k x m : ℕ) → x < 2 ^ k → bit_len k x ≡ suc m → bit x m ≡ 1
unfolding bit_len
bit_len_top zero x m h e = ground arith
bit_len_top (suc k) x zero h e =
    ground (arith, bit_len_zero k (x / 2) (omega (arith, pow-succ' 2 k)))
bit_len_top (suc k) x (suc m) h e =
    bit_len_top k (x / 2) m (omega (arith, pow-succ' 2 k)) (ground arith)

bit_len_above : (k x p : ℕ) → x < 2 ^ k → bit_len k x ≤ p → bit x p ≡ 0
unfolding bit_len
bit_len_above zero x p h e = let z : x ≡ 0 = omega arith in rw z (bit-zero p)
bit_len_above (suc k) x zero h e = ground arith
bit_len_above (suc k) x (suc p) h e = elim (Bool-cases (x == 0)) [
  | inl none_set ↦ let z : x ≡ 0 = ground arith in rw z (bit-zero (suc p))
  | inr some_set ↦ bit_len_above k (x / 2) p (omega (arith, pow-succ' 2 k)) (ground arith)
]

-- `bits.Len8` of a byte.
pub len8_top : (x m : ℕ) → IsByte x → len8 x ≡ suc m → bit x m ≡ 1
unfolding len8
len8_top x m h e = bit_len_top 8 x m h e

pub len8_above : (x p : ℕ) → IsByte x → len8 x ≤ p → bit x p ≡ 0
unfolding len8
len8_above x p h e = bit_len_above 8 x p h e

pub len8-le : (x : ℕ) → len8 x ≤ 8
unfolding len8
len8-le x = bit_len-le 8 x

pub len8-zero : len8 0 ≡ 0
unfolding len8 bit_len
len8-zero = refl

pub len8_zero : (x : ℕ) → IsByte x → len8 x ≡ 0 → x ≡ 0
unfolding len8
len8_zero x h e = bit_len_zero 8 x h e

-- A position is its byte and the bit in it.
pub bit_at_split : (b : List ℕ) (i k : ℕ) → k < 8 → bit_at b (k + i * 8) ≡ bit (get_or b i 0) k
bit_at_split b i k h =
    let q : (k + i * 8) / 8 ≡ i = omega arith in
    let r : (k + i * 8) % 8 ≡ k = omega arith in rw (q, r)

-- A bit of byte `i`, by its position in the whole list.
pub byte_bit :
    (b : List ℕ) (i p : ℕ) → i * 8 ≤ p → p < suc i * 8 → bit_at b p ≡ bit (get_or b i 0) (p - i * 8)
byte_bit b i p lo hi =
    let q : p / 8 ≡ i = omega arith in let r : p % 8 ≡ p - i * 8 = omega arith in rw (q, r)

pub get_or-IsByte : (b : List ℕ) (i : ℕ) → All IsByte b → IsByte (get_or b i 0)
get_or-IsByte b i h = All-get_or IsByte b i 0 h (omega arith)

pub SetBelow-len8 :
    (b : List ℕ) (i x : ℕ)
    → IsByte x
    → ((k : ℕ) → k < 8 → bit x k ≡ 1 → bit (get_or b i 0) k ≡ 1)
    → x ≢ 0
    → SetBelow b (len8 x + i * 8)
SetBelow-len8 b i x h sub ne = go (len8 x) refl
  where
    go : (l : ℕ) → len8 x ≡ l → SetBelow b (l + i * 8)
    go zero e = absurd (ne (len8_zero x h e))
    go (suc m) e =
        let low : m < 8 = omega (arith, len8-le x) in
        let last : suc m + i * 8 - 1 ≡ m + i * 8 = omega arith in
        inr (rw last (bit_at_split b i m low ∙ sub m low (len8_top x m h e)))

pub highest_loop_above :
    (b : List ℕ) (n p : ℕ) → All IsByte b → highest_loop b n ≤ p → p < n * 8 → bit_at b p ≡ 0
unfolding highest_loop
highest_loop_above b zero p h above below = absurd (omega arith)
highest_loop_above b (suc i) p h above below = elim (Bool-cases (get_or b i 0 == 0)) [
  | inl blank ↦ elim (Bool-cases (ltb p (i * 8))) [
    | inl lower ↦ highest_loop_above b i p h (rw blank at above) (ground arith)
    | inr here ↦
        let e : get_or b i 0 ≡ 0 = ground arith in
        byte_bit b i p (ground arith) below ∙ (rw e (bit-zero (p - i * 8)))
  ]
  | inr found ↦
      let top : len8 (get_or b i 0) + i * 8 ≤ p = rw found at above in
      byte_bit b i p (omega arith) below
      ∙ len8_above (get_or b i 0) (p - i * 8) (get_or-IsByte b i h) (omega arith)
]

pub highest_loop-le : (b : List ℕ) (n : ℕ) → highest_loop b n ≤ n * 8
unfolding highest_loop
highest_loop-le b zero = omega arith
highest_loop-le b (suc i) = ground (arith, highest_loop-le b i, len8-le (get_or b i 0))

pub highest_loop-SetBelow : (b : List ℕ) (n : ℕ) → All IsByte b → SetBelow b (highest_loop b n)
unfolding highest_loop
highest_loop-SetBelow b zero h = inl refl
highest_loop-SetBelow b (suc i) h = elim (Bool-cases (get_or b i 0 == 0)) [
  | inl blank ↦ rw blank (highest_loop-SetBelow b i h)
  | inr found ↦
      rw found
        (SetBelow-len8 b i (get_or b i 0) (get_or-IsByte b i h) (λ k low e. e) (ground arith))
]

-- When `HighestBitIndex` of a list of bytes answers `r`, no bit from position `r` on is set, and either `r` is 0 or bit `r - 1` is set.
pub highest_bit_index_lem :
    (b : List ℕ) (r p : ℕ)
    → All IsByte b
    → highest_bit_index b ≡ ok r
    → r ≤ p
    → (bit_at b p ≡ 0) × ((r ≡ 0) ⊎ (bit_at b (r - 1) ≡ 1))
unfolding highest_bit_index
highest_bit_index_lem b r p h e above =
    let answer : highest_loop b (length b) ≡ r = ground arith in
    (
      elim (Bool-cases (ltb p (length b * 8))) [
        | inl inside ↦ highest_loop_above b (length b) p h (omega arith) (ground arith)
        | inr past ↦
            let z : get_or b (p / 8) 0 ≡ 0 = get_or-past b (p / 8) 0 (ground arith) in
            rw z (bit-zero (p % 8))
      ],
      rw answer at (highest_loop-SetBelow b (length b) h),
    )
