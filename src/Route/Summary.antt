-- ===== src/Route/Summary.antt =====
-- route_guide/server/server.go: the summary of `RecordRoute`.
use eth_research.Base.{
  ℕ, suc, ◌+◌, ◌^◌, ◌%◌, ◌≡◌, refl, ◌∙◌, inl, inr, List, [], ◌∷◌, Option, none, some, if◌then◌else◌,
  length, arith, Bool-cases,
}
use eth_research.Route.{
  Point, Feature, Trip, end_of_file, is_at, count_features, add_distance, record_point,
  record_points, trip_start, record_route,
}

-- The features of a list at a point, counted without a bound, and those of all points.
unfoldable pub features_at : List Feature → Point → ℕ
features_at [] point = 0
features_at (f ∷ fs) point =
    let n = features_at fs point in if is_at f.location point then suc n else n

unfoldable pub features_on : List Feature → List Point → ℕ
features_on saved [] = 0
features_on saved (p ∷ ps) = features_at saved p + features_on saved ps

-- The distances from each point to the next, added up.
unfoldable pub length_of : (Point → Point → ℕ) → Option Point → List Point → ℕ
length_of d last [] = 0
length_of d none (p ∷ ps) = length_of d (some p) ps
length_of d (some q) (p ∷ ps) = d q p + length_of d (some p) ps

count_features_lem :
    (fs : List Feature) (p : Point) (n : ℕ)
    → n % 2 ^ 32 ≡ n
    → count_features fs p n ≡ (n + features_at fs p) % 2 ^ 32
unfolding count_features features_at
count_features_lem [] p n e = omega (arith, e)
count_features_lem (f ∷ fs) p n e = elim (Bool-cases (is_at f.location p)) [
  | inl here ↦ rw here (count_features_lem fs p ((n + 1) % 2 ^ 32) (omega arith) ∙ omega arith)
  | inr other ↦ rw other (count_features_lem fs p n e)
]

module _ (saved : List Feature) (calc_distance : Point → Point → ℕ) where
  points_lem :
      (t : Trip) (ps : List Point)
      → t.points % 2 ^ 32 ≡ t.points
      → (record_points saved calc_distance t ps).points ≡ (t.points + length ps) % 2 ^ 32
  unfolding record_points record_point
  points_lem t [] e = omega (arith, e)
  points_lem t (p ∷ ps) e =
      points_lem (record_point saved calc_distance t p) ps (omega arith) ∙ omega arith

  features_lem :
      (t : Trip) (ps : List Point)
      → t.features % 2 ^ 32 ≡ t.features
      → (record_points saved calc_distance t ps).features
        ≡ (t.features + features_on saved ps) % 2 ^ 32
  unfolding record_points record_point features_on
  features_lem t [] e = omega (arith, e)
  features_lem t (p ∷ ps) e =
      let one = count_features_lem saved p t.features e in
      features_lem (record_point saved calc_distance t p) ps (omega (arith, one))
      ∙ omega (arith, one)

  -- The distance from the last point, if there is one.
  abbrev hop : Option Point → Point → ℕ
  hop none p = 0
  hop (some q) p = calc_distance q p

  length_of-hop :
      (last : Option Point) (p : Point) (ps : List Point)
      → length_of calc_distance last (p ∷ ps) ≡ hop last p + length_of calc_distance (some p) ps
  unfolding length_of
  length_of-hop none p ps = omega arith
  length_of-hop (some q) p ps = refl

  add_distance-hop :
      (last : Option Point) (p : Point) (n : ℕ)
      → n % 2 ^ 32 ≡ n
      → add_distance saved calc_distance last p n ≡ (n + hop last p) % 2 ^ 32
  unfolding add_distance
  add_distance-hop none p n e = omega (arith, e)
  add_distance-hop (some q) p n e = refl

  metres_lem :
      (t : Trip) (ps : List Point)
      → t.metres % 2 ^ 32 ≡ t.metres
      → (record_points saved calc_distance t ps).metres
        ≡ (t.metres + length_of calc_distance t.last_point ps) % 2 ^ 32
  unfolding record_points record_point length_of
  metres_lem t [] e = omega (arith, e)
  metres_lem t (p ∷ ps) e =
      let one = add_distance-hop t.last_point p t.metres e in
      metres_lem (record_point saved calc_distance t p) ps (omega (arith, one))
      ∙ omega (arith, one, length_of-hop t.last_point p ps)

  -- At the end of a stream of points, `RecordRoute` answers with the number of points, the number
  -- of saved features at them, and the distance from each point to the next, each modulo 2^32.
  pub record_route_lem :
      (ps : List Point) (elapsed : ℕ)
      → record_route saved calc_distance ps end_of_file elapsed
        ≡ some (record {
          point_count = length ps % 2 ^ 32;
          feature_count = features_on saved ps % 2 ^ 32;
          distance = length_of calc_distance none ps % 2 ^ 32;
          elapsed_time = elapsed;
        })
  unfolding record_route
  record_route_lem ps elapsed =
      let start = trip_start saved calc_distance in
      let points : (record_points saved calc_distance start ps).points ≡ length ps % 2 ^ 32 =
        points_lem start ps (omega arith) ∙ omega arith in
      let features : (record_points saved calc_distance start ps).features
          ≡ features_on saved ps % 2 ^ 32 =
        features_lem start ps (omega arith) ∙ omega arith in
      let metres : (record_points saved calc_distance start ps).metres
          ≡ length_of calc_distance none ps % 2 ^ 32 =
        metres_lem start ps (omega arith) ∙ omega arith in
      rw (points, features, metres) refl
