-- ===== src/Bytes/Integers/BigEndian.antt =====
-- bytesutil/bytes.go: the big-endian conversions.
use eth_research.Base.{
  ℕ, zero, suc, ◌+◌, ◌*◌, ◌/◌, ◌%◌, ◌^◌, ◌<◌, ◌≡◌, refl, sym, ap, ◌∙◌, List, [], ◌∷◌, ◌++◌, length,
  length-append, replicate, arith, append-nil, take_all, ◌>>=◌, done, reverse,
}
use eth_research.Bytes.Integers.{
  le_bytes, be_bytes, be_value, put_uint64_be, uint64_be, uint64_to_bytes_big_endian,
  bytes_to_uint64_big_endian, uint64_to_bytes_little_endian,
}
use mathlib.Core.List.{reverse-append}
use eth_research.Bytes.Integers.Digits.{mod_split, put_uint64_le-done}
use native.Mathlib.Nat.{pow-succ', mod-eq_of_lt}

be_value-append :
    (acc b : ℕ) (xs : List ℕ) → be_value acc (xs ++ (b ∷ [])) ≡ be_value acc xs * 256 + b
unfolding be_value
be_value-append acc b [] = refl
be_value-append acc b (x ∷ xs) = be_value-append (acc * 256 + x) b xs

be_value-be_bytes : (n v : ℕ) → be_value 0 (be_bytes n v) ≡ v % 256 ^ n
unfolding be_bytes
be_value-be_bytes zero v = unfold be_value in omega arith
be_value-be_bytes (suc n) v =
    rw (be_value-append, be_value-be_bytes n (v / 256), pow-succ' 256 n, mod_split v (256 ^ n))
      (omega arith)

be_bytes-reverse : (n v : ℕ) → be_bytes n v ≡ reverse (le_bytes n v)
unfolding be_bytes le_bytes
be_bytes-reverse zero v = refl
be_bytes-reverse (suc n) v =
    ap (λ r. r ++ ((v % 256) ∷ [])) (be_bytes-reverse n (v / 256))
    ∙ sym (reverse-append ((v % 256) ∷ []) (le_bytes n (v / 256)))

length-be_bytes : (n v : ℕ) → length (be_bytes n v) ≡ n
unfolding be_bytes
length-be_bytes zero v = refl
length-be_bytes (suc n) v = rw length-append (omega (arith, length-be_bytes n (v / 256)))

be_written : (x : ℕ) → uint64_to_bytes_big_endian x ≡ done (be_bytes 8 x)
unfolding uint64_to_bytes_big_endian put_uint64_be
be_written x = ap done (append-nil (be_bytes 8 x))

read_be : (v : ℕ) → v < 2 ^ 64 → bytes_to_uint64_big_endian (be_bytes 8 v) ≡ done v
unfolding bytes_to_uint64_big_endian uint64_be
read_be v h =
    rw (length-be_bytes, take_all 8 (be_bytes 8 v) (omega (arith, length-be_bytes 8 v)))
      (ap done (be_value-be_bytes 8 v ∙ mod-eq_of_lt h))

-- For every `uint64`, reading back the big-endian bytes gives the number, and these bytes are
-- the little-endian ones in reverse.
pub big_endian_round_trip :
    (x : ℕ)
    → x < 2 ^ 64
    → ((uint64_to_bytes_big_endian x >>= bytes_to_uint64_big_endian) ≡ done x)
      × (uint64_to_bytes_big_endian x ≡ (uint64_to_bytes_little_endian x >>= λ b. done (reverse b)))
unfolding uint64_to_bytes_little_endian
big_endian_round_trip x h = (
  rw be_written (read_be x h),
  rw (be_written, put_uint64_le-done (replicate 8 0) x (omega arith), append-nil)
      (ap done (be_bytes-reverse 8 x)),
)
