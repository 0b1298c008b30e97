-- ===== src/Rand.antt =====
-- rand/rand.go: random numbers of the system as a source for math/rand. What `binary.Read` makes of
-- the system's reader is a parameter: a uint64, or an error. The read lock changes nothing.
pub mod Range
mod Examples
use eth_research.Base.{
  ℕ, ◌^◌, ◌-◌, bit_and, bit_xor, Option, none, some, Outcome, done, panic, ◌>>=◌,
}
use eth_research.Base.Int.{ℤ, to_int64}

module _ {Reader : Type 0} (read_uint64 : Reader → Option (ℕ × Reader)) where
  -- `source.Seed`
  unfoldable pub seed : ℤ → Reader → Reader
  seed n r = r

  -- `source.Uint64`
  unfoldable pub uint64 : Reader → Outcome (ℕ × Reader)
  uint64 r = elim (read_uint64 r) [ none ↦ panic | some (v, r1) ↦ done (v, r1) ]

  -- `source.Int63`
  unfoldable pub int63 : Reader → Outcome (ℤ × Reader)
  int63 r = do (v, r1) ← uint64 r; done (to_int64 (bit_and v (bit_xor (2 ^ 63) (2 ^ 64 - 1))), r1)

  -- `NewDeterministicGenerator`, where `new_rand` is a generator of math/rand from a seed, and the
  -- `Int63` of the generator is that of its source.
  unfoldable pub new_deterministic_generator :
      {Rand : Type 0} → (ℤ → Rand) → Reader → Outcome (Rand × Reader)
  new_deterministic_generator new_rand r = do (n, r1) ← int63 r; done (new_rand n, r1)
