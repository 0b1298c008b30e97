-- ===== src/Bytes/Integers/RoundTrip.antt =====
-- bytesutil/bytes.go: what the conversions between integers and byte slices give back.
use eth_research.Base.{
  ℕ, ◌+◌, ◌-◌, ◌%◌, ◌^◌, ◌≤◌, ◌<◌, ◌≡◌, refl, sym, ap, ◌∙◌, inl, inr, List, [], ◌∷◌, ◌++◌, length,
  length-append, take, replicate, All, arith, Bool-cases, append-nil, length-replicate, take_all,
  ◌>>=◌, done, ltb,
}
use eth_research.Bytes.Integers.{
  IsByte, le_bytes, le_value, to_bytes, put_uint64_le, slice_to, bytes8, from_bytes8,
}
use mathlib.Core.Path.{ap₂}
use eth_research.Bytes.Integers.Digits.{
  length-le_bytes, le_bytes-IsByte, le_value-le_bytes, take-le_bytes, le_bytes_pad, drop-replicate,
  put_uint64_le-done, uint64_le-done, slice_to-done,
}
use native.Mathlib.Nat.{mod-eq_of_lt}

length-zeros : (n : ℕ) → 8 ≤ n → 8 ≤ length {A = ℕ} (replicate n 0)
length-zeros n h = rw length-replicate h

-- Both branches of `ToBytes`, by the length of the buffer that it makes.
to_bytes_buffer :
    (x len k : ℕ)
    → 8 ≤ k
    → len ≤ k
    → x < 2 ^ 64
    → (put_uint64_le (replicate k 0) x >>= λ bytes. slice_to bytes len) ≡ done (le_bytes len x)
to_bytes_buffer x len k hk hl h =
    rw (put_uint64_le-done (replicate k 0) x (length-zeros k hk), drop-replicate 8 k 0)
      (rw (le_bytes_pad 8 (k - 8) x h) (
        rw (slice_to-done (le_bytes (8 + (k - 8)) x) len (rw length-le_bytes (omega arith)))
          (ap done (ap (take len) (sym (append-nil _)) ∙ take-le_bytes len _ x [] (omega arith)))))

-- `ToBytes` writes the `len` lowest bytes: a short length cuts, a long one pads with zeros.
to_bytes-le_bytes : (x len : ℕ) → x < 2 ^ 64 → to_bytes x len ≡ done (le_bytes len x)
unfolding to_bytes
to_bytes-le_bytes x len h = elim (Bool-cases (ltb len 8)) [
  | inl short ↦ rw short (to_bytes_buffer x len 8 (omega arith) (ground arith) h)
  | inr long ↦ rw long (to_bytes_buffer x len len (ground arith) (omega arith) h)
]

-- For every `uint64` and every length `ToBytes` does not panic, and returns that many bytes;
-- read in little-endian order they are the number modulo 256 to the length.
pub to_bytes_lem :
    (x len : ℕ)
    → x < 2 ^ 64
    → (out : List ℕ) × (to_bytes x len ≡ done out)
      × (length out ≡ len)
      × All IsByte out
      × (le_value out ≡ x % 256 ^ len)
to_bytes_lem x len h = (
  le_bytes len x,
  to_bytes-le_bytes x len h,
  length-le_bytes len x,
  le_bytes-IsByte len x,
  le_value-le_bytes len x,
)

-- `BytesN` and `ToBytes` of length `N` write the same bytes.
pub bytes8-le_bytes : (x : ℕ) → bytes8 x ≡ done (le_bytes 8 x)
unfolding bytes8
bytes8-le_bytes x = put_uint64_le-done (replicate 8 0) x (omega arith) ∙ ap done (append-nil _)

from_bytes8-le_bytes :
    (x : ℕ) (rest : List ℕ) → x < 2 ^ 64 → from_bytes8 (le_bytes 8 x ++ rest) ≡ done x
unfolding from_bytes8
from_bytes8-le_bytes x rest h =
    rw
      (
        uint64_le-done (le_bytes 8 x ++ rest) (rw (length-append, length-le_bytes) (omega arith)),
        take-le_bytes 8 8 x rest (omega arith),
        le_value-le_bytes 8 x,
      )
      (ap done (mod-eq_of_lt h))

-- `FromBytes8` reads back what `Bytes8` wrote, for every `uint64`, whatever follows the 8 bytes.
pub from_bytes8-bytes8 :
    (x : ℕ) (rest : List ℕ) → x < 2 ^ 64 → (bytes8 x >>= λ b. from_bytes8 (b ++ rest)) ≡ done x
from_bytes8-bytes8 x rest h = rw bytes8-le_bytes (from_bytes8-le_bytes x rest h)

le_bytes-le_value : (b : List ℕ) → All IsByte b → le_bytes (length b) (le_value b) ≡ b
unfolding le_bytes le_value
le_bytes-le_value [] h = refl
le_bytes-le_value (x ∷ b) h =
    ap₂ (λ y ys. y ∷ ys) (omega (arith, h.0))
      (ap (le_bytes (length b)) (omega (arith, h.0)) ∙ le_bytes-le_value b h.1)

-- The other way round: from any 8 bytes `FromBytes8` makes a number that `Bytes8` writes as
-- those bytes.
pub bytes8-from_bytes8 :
    (b : List ℕ) → length b ≡ 8 → All IsByte b → (from_bytes8 b >>= bytes8) ≡ done b
unfolding from_bytes8
bytes8-from_bytes8 b e h =
    rw (uint64_le-done b (omega arith), take_all 8 b (omega arith))
      (bytes8-le_bytes (le_value b)
        ∙ ap done (ap (λ n. le_bytes n (le_value b)) (sym e) ∙ le_bytes-le_value b h))
