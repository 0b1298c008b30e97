-- ===== src/Rand/Examples.antt =====
-- A reader that holds one number.
use eth_research.Base.{ℕ, ◌^◌, ◌-◌, ◌≡◌, refl, Option, none, some, done}
use eth_research.Base.Int.{pos, to_int64}
use eth_research.Rand.{int63, uint64}

abbrev held : Option ℕ → Option (ℕ × Option ℕ)
held none = none
held (some v) = some (v, none)

greatest : int63 held (some (2 ^ 64 - 1)) ≡ done (pos (2 ^ 63 - 1), none)
unfolding int63 uint64 to_int64
greatest = refl
