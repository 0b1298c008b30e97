-- ===== src/Route/Client/Examples.antt =====
-- Runs of the route guide's client on a server with two features.
use eth_research.Base.{ℕ, ◌+◌, ◌-◌, ◌<◌, min, arith}
use eth_research.Route.Examples.{saved, steps, print_point}
use eth_research.Route.Client.{Stub}
use eth_research.Route.Client.Journey.{on_server}

-- A source that counts.
abbrev counting : ℕ → ℕ → ℕ × ℕ
counting n r = (min r (n - 1), r + 1)

counting_below : (n r : ℕ) → 0 < n → (counting n r).0 < n
counting_below n r h = omega (arith, h)

abbrev stub : Stub
stub = on_server saved steps print_point 3
