-- ===== src/Base/Masks.antt =====
-- A mask of low bits keeps the remainder.
use Prim.Native.Nat.{ℕ, zero, suc, ◌+◌, ◌-◌, ◌*◌, ◌/◌, ◌%◌, ◌^◌, ◌<◌, ◌≤◌, bit_and}
use mathlib.Core.Path.{◌≡◌, refl, ap, sym, ◌∙◌}
use native.Mathlib.Omega.{arith}
use eth_research.Base.Bits.{bit_and_step}

-- `k` bits that are set, the low `k` bits of a number, what is above them, and `k` doublings.
mask : ℕ → ℕ
mask zero = 0
mask (suc k) = 1 + 2 * mask k

low : ℕ → ℕ → ℕ
low zero v = 0
low (suc k) v = v % 2 + 2 * low k (v / 2)

high : ℕ → ℕ → ℕ
high zero v = v
high (suc k) v = high k (v / 2)

doubled : ℕ → ℕ → ℕ
doubled zero x = x
doubled (suc k) x = 2 * doubled k x

bit_and_none : (n v : ℕ) → v ≤ n → bit_and v 0 ≡ 0
bit_and_none zero zero h = refl
bit_and_none zero (suc v) h = absurd (omega arith)
bit_and_none (suc n) v h = omega (arith, bit_and_step v 0, bit_and_none n (v / 2) (omega arith))

bit_and-low : (k v : ℕ) → bit_and v (mask k) ≡ low k v
unfolding mask low
bit_and-low zero v = bit_and_none v v (omega arith)
bit_and-low (suc k) v =
    let half : (1 + 2 * mask k) / 2 ≡ mask k = omega arith in
    let odd : (1 + 2 * mask k) % 2 ≡ 1 = omega arith in
    bit_and_step v (1 + 2 * mask k) ∙ rw (half, odd, bit_and-low k (v / 2)) (omega arith)

split_low : (k v : ℕ) → v ≡ low k v + doubled k (high k v)
unfolding low high doubled
split_low zero v = omega arith
split_low (suc k) v = omega (arith, split_low k (v / 2))

low_lt : (k v : ℕ) → low k v < doubled k 1
unfolding low doubled
low_lt zero v = omega arith
low_lt (suc k) v = omega (arith, low_lt k (v / 2))

doubled_63 : (x : ℕ) → doubled 63 x ≡ 2 ^ 63 * x
unfolding doubled
doubled_63 x = omega arith

mask_63 : mask 63 ≡ 2 ^ 63 - 1
unfolding mask
mask_63 = refl

pub bit_and_63 : (v : ℕ) → bit_and v (2 ^ 63 - 1) ≡ v % 2 ^ 63
bit_and_63 v =
    ap (bit_and v) (sym mask_63)
    ∙ bit_and-low 63 v
    ∙ omega (arith, split_low 63 v, low_lt 63 v, doubled_63 (high 63 v), doubled_63 1)
