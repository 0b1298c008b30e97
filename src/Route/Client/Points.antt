-- ===== src/Route/Client/Points.antt =====
-- route_guide/client/client.go: the random points of a route.
use eth_research.Base.{ℕ, zero, suc, ◌+◌, ◌*◌, ◌^◌, ◌≤◌, ◌<◌, ◌≡◌, refl, ap, length, All, arith}
use eth_research.Route.{Point}
use eth_research.Route.Client.{Stub, origin, to_units, random_point, random_points, random_route}

-- From 90 degrees south to 89 north, and from 180 degrees west to 179 east.
abbrev pub IsOnEarth : Point → Type 0
IsOnEarth p =
    (origin ≤ p.latitude + 90 * 10 ^ 7)
    × (p.latitude ≤ origin + 89 * 10 ^ 7)
    × (origin ≤ p.longitude + 180 * 10 ^ 7)
    × (p.longitude ≤ origin + 179 * 10 ^ 7)

module _ (client : Stub) {Source : Type 0} (int31n : ℕ → Source → ℕ × Source)
    (below : (n : ℕ) (r : Source) → 0 < n → (int31n n r).0 < n) where
  latitude_lem :
      (a : ℕ)
      → a < 180
      → (origin ≤ to_units client int31n 90 a + 90 * 10 ^ 7)
        × (to_units client int31n 90 a ≤ origin + 89 * 10 ^ 7)
  unfolding to_units
  latitude_lem a h = (omega (arith, h), omega (arith, h))

  longitude_lem :
      (a : ℕ)
      → a < 360
      → (origin ≤ to_units client int31n 180 a + 180 * 10 ^ 7)
        × (to_units client int31n 180 a ≤ origin + 179 * 10 ^ 7)
  unfolding to_units
  longitude_lem a h = (omega (arith, h), omega (arith, h))

  random_point-IsOnEarth : (r : Source) → IsOnEarth (random_point client int31n r).0
  unfolding random_point
  random_point-IsOnEarth r =
      let (a, r1) = int31n 180 r in
      let (south, north) = latitude_lem (int31n 180 r).0 (below 180 r (omega arith)) in
      let (west, east) =
        longitude_lem (int31n 360 (int31n 180 r).1).0 (below 360 (int31n 180 r).1 (omega arith)) in
      (south, north, west, east)

  random_points-IsOnEarth :
      (n : ℕ) (r : Source)
      → (length (random_points client int31n n r) ≡ n)
        × All IsOnEarth (random_points client int31n n r)
  unfolding random_points
  random_points-IsOnEarth zero r = (refl, tt)
  random_points-IsOnEarth (suc n) r =
      let (count, all) = random_points-IsOnEarth n (random_point client int31n r).1 in
      (ap suc count, (random_point-IsOnEarth r, all))

  -- Where `Int31n(n)` answers below n: the route of `runRecordRoute` has between 2 and 101 points,
  -- each of them from 90 degrees south to 89 north and from 180 degrees west to 179 east, so that
  -- no coordinate leaves the int32.
  pub random_route_lem :
      (r : Source)
      → (2 ≤ length (random_route client int31n r))
        × (length (random_route client int31n r) ≤ 101)
        × All IsOnEarth (random_route client int31n r)
  unfolding random_route
  random_route_lem r =
      let (count, all) = random_points-IsOnEarth ((int31n 100 r).0 + 2) (int31n 100 r).1 in
      (omega (arith, count), omega (arith, count, below 100 r (omega arith)), all)
