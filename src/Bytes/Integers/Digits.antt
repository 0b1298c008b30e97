-- ===== src/Bytes/Integers/Digits.antt =====
-- bytesutil/bytes.go: the digits in base 256 that the conversions write, and the buffers that they write to.
use eth_research.Base.{
  ℕ, zero, suc, ◌+◌, ◌-◌, ◌*◌, ◌/◌, ◌%◌, ◌^◌, ◌≤◌, ◌<◌, ◌≡◌, refl, sym, ap, ◌∙◌, List, ◌∷◌, ◌++◌,
  length, take, drop, replicate, All, arith, done,
}
use eth_research.Bytes.Integers.{IsByte, le_bytes, le_value, put_uint64_le, uint64_le, slice_to}
use native.Mathlib.Nat.{div-add-mod, div-div-eq-div-mul, pow-succ'}
use Prim.Native.Nat.add

pub length-le_bytes : (n v : ℕ) → length (le_bytes n v) ≡ n
unfolding le_bytes
length-le_bytes zero v = refl
length-le_bytes (suc n) v = ap suc (length-le_bytes n (v / 256))

pub le_bytes-IsByte : (n v : ℕ) → All IsByte (le_bytes n v)
unfolding le_bytes
le_bytes-IsByte zero v = tt
le_bytes-IsByte (suc n) v = (omega arith, le_bytes-IsByte n (v / 256))

-- The lowest byte, and the rest.
pub mod_split : (v m : ℕ) → v % (256 * m) ≡ v % 256 + 256 * (v / 256 % m)
mod_split v m = omega (
  arith,
  div-add-mod v (256 * m),
  ap (λ (t : ℕ). 256 * m * t) (div-div-eq-div-mul v 256 m),
  ap (λ (t : ℕ). 256 * t) (div-add-mod (v / 256) m),
)

pub le_value-le_bytes : (n v : ℕ) → le_value (le_bytes n v) ≡ v % 256 ^ n
unfolding le_bytes le_value
le_value-le_bytes zero v = omega arith
le_value-le_bytes (suc n) v =
    rw (le_value-le_bytes n (v / 256), pow-succ' 256 n, mod_split v (256 ^ n))

pub le_bytes-zero : (n : ℕ) → le_bytes n 0 ≡ replicate n 0
unfolding le_bytes
le_bytes-zero zero = refl
le_bytes-zero (suc n) = ap (λ r. 0 ∷ r) (le_bytes-zero n)

pub take-le_bytes :
    (m n v : ℕ) (rest : List ℕ) → m ≤ n → take m (le_bytes n v ++ rest) ≡ le_bytes m v
unfolding le_bytes
take-le_bytes zero n v rest h = refl
take-le_bytes (suc m) zero v rest h = absurd (omega arith)
take-le_bytes (suc m) (suc n) v rest h =
    ap (λ r. (v % 256) ∷ r) (take-le_bytes m n (v / 256) rest (omega arith))

-- Past the eighth byte a `uint64` has only zeros.
pub le_bytes_pad : (m n v : ℕ) → v < 256 ^ m → le_bytes m v ++ replicate n 0 ≡ le_bytes (m + n) v
unfolding le_bytes
le_bytes_pad zero n v h = let e : v ≡ 0 = omega arith in rw (e, add.zero) (sym (le_bytes-zero n))
le_bytes_pad (suc m) n v h =
    rw add.suc
      (ap (λ r. (v % 256) ∷ r) (le_bytes_pad m n (v / 256) (omega (arith, pow-succ' 256 m))))

pub drop-replicate : (m n a : ℕ) → drop m (replicate n a) ≡ replicate (n - m) a
drop-replicate zero n a = ap (λ k. replicate k a) (omega arith)
drop-replicate (suc m) zero a = ap (λ (k : ℕ). replicate k a) {x = 0} (omega arith)
drop-replicate (suc m) (suc n) a = drop-replicate m n a ∙ ap (λ k. replicate k a) (omega arith)

pub put_uint64_le-done :
    (buf : List ℕ) (v : ℕ)
    → 8 ≤ length buf
    → put_uint64_le buf v ≡ done (le_bytes 8 v ++ drop 8 buf)
unfolding put_uint64_le
put_uint64_le-done buf v h = ground arith

pub uint64_le-done : (b : List ℕ) → 8 ≤ length b → uint64_le b ≡ done (le_value (take 8 b))
unfolding uint64_le
uint64_le-done b h = ground arith

pub slice_to-done : (b : List ℕ) (n : ℕ) → n ≤ length b → slice_to b n ≡ done (take n b)
unfolding slice_to
slice_to-done b n h = ground arith
