-- ===== src/Rand/Range.antt =====
-- rand/rand.go: which numbers `Int63` answers with.
use eth_research.Base.{
  ℕ, ◌^◌, ◌%◌, ◌-◌, ◌<◌, ◌≡◌, refl, ap, inl, inr, ◌⊎◌, Option, none, some, lt→ltb, bit_and, bit_xor,
  arith, Option-cases, done, panic,
}
use eth_research.Base.Int.{pos, to_int64}
use eth_research.Base.Masks.{bit_and_63}
use eth_research.Rand.{uint64, int63}

to_int64-low : (v : ℕ) → to_int64 (bit_and v (bit_xor (2 ^ 63) (2 ^ 64 - 1))) ≡ pos (v % 2 ^ 63)
unfolding to_int64
to_int64-low v =
    let low = bit_and_63 v in
    let below : v % 2 ^ 63 < 2 ^ 63 = omega arith in
    rw (low, lt→ltb (v % 2 ^ 63) (2 ^ 63) below) refl

-- `Int63` panics where the reader cannot return data. Otherwise it takes one uint64 from it and
-- answers with its remainder modulo 2^63: a number that is not negative and below 2^63, and each such
-- number for exactly two values of the reader, itself and 2^63 more.
pub int63_lem :
    {Reader : Type 0} (read_uint64 : Reader → Option (ℕ × Reader)) (r : Reader)
    → ((read_uint64 r ≡ none) × (int63 read_uint64 r ≡ panic))
      ⊎ ((v : ℕ) × ((r1 : Reader) × (read_uint64 r ≡ some (v, r1))
            × (int63 read_uint64 r ≡ done (pos (v % 2 ^ 63), r1))
            × (v % 2 ^ 63 < 2 ^ 63)))
unfolding int63 uint64
int63_lem read_uint64 r = elim (Option-cases (read_uint64 r)) [
  | inl stopped ↦ inl (stopped, rw (int63, uint64, stopped) refl)
  | inr ((v, r1), came) ↦ inr (
    v,
    (r1, came, rw (int63, uint64, came) (ap (λ n. done (n, r1)) (to_int64-low v)), omega arith),
  )
]
