-- ===== src/Base/Bits.antt =====
-- `|` and `&` bit by bit, at every width.
use Prim.Native.Nat.{ℕ, zero, suc, ◌+◌, ◌-◌, ◌*◌, ◌/◌, ◌%◌, ◌^◌, ◌≤◌, ◌<◌, min, max}
use Prim.Native.Nat.{bit_and, bit_or, digits, bitwise, bit_and-bitwise, bit_or-bitwise}
use mathlib.Core.Path.{◌≡◌, refl, ap, ◌∙◌}
use Prim.Native.Nat.add
use mathlib.Core.Bool.{Bool, true, ◌&&◌}
use native.Mathlib.Nat.{pow-suc}
use native.Mathlib.Omega.{arith}

-- The library gives `|` and `&` by a recursion on digits whose fuel is the first operand. Fuel
-- beyond that operand changes nothing, so one digit can be taken off.
module _ (past : ℕ → ℕ) (op : ℕ → ℕ → ℕ) where
  spare_unit : (n x y : ℕ) → x ≤ n → digits past op (suc n) x y ≡ digits past op n x y
  spare_unit zero zero y h = refl
  spare_unit zero (suc x) y h = elim h [ ]
  spare_unit (suc n) zero y h = refl
  spare_unit (suc n) (suc x) y h =
      ap (λ t. t * 2 + op (suc x % 2) (y % 2)) (spare_unit n (suc x / 2) (y / 2) (omega arith))

  spare : (k x y : ℕ) → digits past op (k + x) x y ≡ digits past op x x y
  spare zero x y = ap (λ n. digits past op n x y) (add.zero x)
  spare (suc k) x y =
      ap (λ n. digits past op n x y) (add.suc k x)
      ∙ spare_unit (k + x) x y (omega arith)
      ∙ spare k x y

  lowest_digit :
      (x y : ℕ)
      → bitwise past op (suc x) y ≡ op (suc x % 2) (y % 2) + 2 * bitwise past op (suc x / 2) (y / 2)
  lowest_digit x y =
      let h = suc x / 2 in
      let enough : x ≡ (x - h) + h = omega arith in
      omega (arith, ap (λ n. digits past op n h (y / 2)) enough, spare (x - h) h (y / 2))

pub bit_or_step : (a b : ℕ) → bit_or a b ≡ max (a % 2) (b % 2) + 2 * bit_or (a / 2) (b / 2)
bit_or_step zero b = simp bit_or-bitwise (omega arith)
bit_or_step (suc a) b = simp bit_or-bitwise (lowest_digit (λ y. y) max a b)

pub bit_and_step : (a b : ℕ) → bit_and a b ≡ min (a % 2) (b % 2) + 2 * bit_and (a / 2) (b / 2)
bit_and_step zero b = simp bit_and-bitwise (omega arith)
bit_and_step (suc a) b = simp bit_and-bitwise (lowest_digit (λ y. 0) min a b)

-- The bit of `x` at position `k`, as 0 or 1.
abbrev pub bit : ℕ → ℕ → ℕ
bit x zero = x % 2
bit x (suc k) = bit (x / 2) k

pub bit-bit_or : (k a b : ℕ) → bit (bit_or a b) k ≡ max (bit a k) (bit b k)
bit-bit_or zero a b = omega (arith, bit_or_step a b)
bit-bit_or (suc k) a b =
    ap (λ t. bit t k) (omega (arith, bit_or_step a b)) ∙ bit-bit_or k (a / 2) (b / 2)

pub bit-bit_and : (k a b : ℕ) → bit (bit_and a b) k ≡ min (bit a k) (bit b k)
bit-bit_and zero a b = omega (arith, bit_and_step a b)
bit-bit_and (suc k) a b =
    ap (λ t. bit t k) (omega (arith, bit_and_step a b)) ∙ bit-bit_and k (a / 2) (b / 2)

pub bit-le_one : (k a : ℕ) → bit a k ≤ 1
bit-le_one zero a = omega arith
bit-le_one (suc k) a = bit-le_one k (a / 2)

pub bit_or-below : (k a b : ℕ) → a < 2 ^ k → b < 2 ^ k → bit_or a b < 2 ^ k
bit_or-below zero a b p q = ground (arith, bit_or_step a b)
bit_or-below (suc k) a b p q = omega (
  arith,
  pow-suc 2 k,
  bit_or_step a b,
  bit_or-below k (a / 2) (b / 2) (omega (arith, pow-suc 2 k)) (omega (arith, pow-suc 2 k)),
)

zero-bit_and : (b : ℕ) → bit_and 0 b ≡ 0
zero-bit_and b = bit_and-bitwise 0 b

pub bit_and-le : (k a b : ℕ) → a < 2 ^ k → bit_and a b ≤ a
bit_and-le zero zero b p = omega (arith, zero-bit_and b)
bit_and-le zero (suc a) b p = absurd (omega arith)
bit_and-le (suc k) a b p =
    omega (arith, bit_and_step a b, bit_and-le k (a / 2) (b / 2) (omega (arith, pow-suc 2 k)))

pub bit-zero : (k : ℕ) → bit 0 k ≡ 0
bit-zero zero = refl
bit-zero (suc k) = bit-zero k

-- A table: a test that holds at every number below a bound, by evaluation.
unfoldable pub all_below : ℕ → (ℕ → Bool) → Bool
all_below zero test = true
all_below (suc n) test = test n && all_below n test

pub all_below_sound :
    (n : ℕ) (test : ℕ → Bool) (i : ℕ) → all_below n test ≡ true → i < n → test i ≡ true
unfolding all_below
all_below_sound zero test i table below = elim below [ ]
all_below_sound (suc n) test i table below = ground (arith, all_below_sound n test i)
