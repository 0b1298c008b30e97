-- ===== src/Route.antt =====
-- route_guide/server/server.go: features, routes and notes. A coordinate, an int32, is kept as its
-- distance from the smallest int32, which has the same order and equality; the counters are 32
-- bits that wrap around. A location can be nil, and its fields are read without a check.
pub mod Listing
pub mod Summary
pub mod Chat
pub mod Data
pub mod Sends
pub mod Stream
pub mod Chats
pub mod Client
pub mod Server
pub mod Hosting
mod Examples
use eth_research.Base.{
  ℕ, zero, suc, ◌+◌, ◌^◌, ◌%◌, min, max, List, [], ◌∷◌, ◌++◌, Bool, true, false, not, ◌&&◌, Option,
  none, some, ◌==◌, leb, if◌then◌else◌, Outcome, done, panic, ◌>>=◌,
}
use eth_research.Base.Dict.{Dict, Eq, lookup_or, insert}
use eth_research.Base.Text.{String, string_eq}

pub record Point : Type 0 where
  pub latitude : ℕ
  pub longitude : ℕ

pub record Rectangle : Type 0 where
  pub lo : Option Point
  pub hi : Option Point

pub record Feature : Type 0 where
  pub name : String
  pub location : Option Point

pub record RouteNote : Type 0 where
  pub location : Option Point
  pub message : String

pub record RouteSummary : Type 0 where
  pub point_count : ℕ
  pub feature_count : ℕ
  pub distance : ℕ
  pub elapsed_time : ℕ

-- `proto.Equal` of two locations, the second one not nil.
abbrev pub point_eq : Point → Point → Bool
point_eq p q = (p.latitude == q.latitude) && (p.longitude == q.longitude)

abbrev pub is_at : Option Point → Point → Bool
is_at none q = false
is_at (some p) q = point_eq p q

unfoldable pub get_feature : List Feature → Point → Feature
get_feature [] point = record { name = ""; location = some point }
get_feature (feature ∷ rest) point =
    let other = get_feature rest point in if is_at feature.location point then feature else other

-- The comparisons of `inRange`, whose floats hold every int32.
unfoldable pub in_corners : Point → Point → Point → Bool
in_corners point lo hi =
    let left = min lo.longitude hi.longitude in
    let right = max lo.longitude hi.longitude in
    let top = max lo.latitude hi.latitude in
    let bottom = min lo.latitude hi.latitude in
    leb left point.longitude
    && leb point.longitude right
    && leb bottom point.latitude
    && leb point.latitude top

-- `inRange`, which reads the fields of all three points.
unfoldable pub in_range : Option Point → Rectangle → Outcome Bool
in_range point rect = elim point [
  | none ↦ panic
  | some p ↦ elim rect.lo [
    | none ↦ panic
    | some lo ↦ elim rect.hi [ none ↦ panic | some hi ↦ done (in_corners p lo hi) ]
  ]
]

-- `ListFeatures`, with the sends that work, from number `n` on: what is sent, and whether the call
-- ends without an error.
module _ (rect : Rectangle) (works : ℕ → Bool) where
  unfoldable pub list_features : ℕ → List Feature → Outcome (List Feature × Bool)
  list_features n [] = done ([], true)
  list_features n (feature ∷ rest) = do
    inside ← in_range feature.location rect
    (elim inside [
      | false ↦ list_features n rest
      | true ↦ elim (works n) [
        | false ↦ done ([], false)
        | true ↦ do (sent, fine) ← list_features (suc n) rest; done (feature ∷ sent, fine)
      ]
    ])

-- What the loop of `RecordRoute` keeps, and how a stream of points ends.
pub record Trip : Type 0 where
  pub points : ℕ
  pub features : ℕ
  pub metres : ℕ
  pub last_point : Option Point

pub data Ending : Type 0 where
  end_of_file : Ending
  broken : Ending

unfoldable pub count_features : List Feature → Point → ℕ → ℕ
count_features [] point n = n
count_features (feature ∷ rest) point n =
    count_features rest point (if is_at feature.location point then (n + 1) % 2 ^ 32 else n)

-- The distance of two points is computed in floats, and is a parameter.
module _ (saved : List Feature) (calc_distance : Point → Point → ℕ) where
  unfoldable pub add_distance : Option Point → Point → ℕ → ℕ
  add_distance none point distance = distance
  add_distance (some last) point distance = (distance + calc_distance last point) % 2 ^ 32

  unfoldable pub record_point : Trip → Point → Trip
  record_point t point = record {
    points = (t.points + 1) % 2 ^ 32;
    features = count_features saved point t.features;
    metres = add_distance t.last_point point t.metres;
    last_point = some point;
  }

  unfoldable pub record_points : Trip → List Point → Trip
  record_points t [] = t
  record_points t (point ∷ rest) = record_points (record_point t point) rest

  abbrev pub trip_start : Trip
  trip_start = record { points = 0; features = 0; metres = 0; last_point = none }

  -- `RecordRoute`, with the points before the stream ends, and the seconds that it took.
  unfoldable pub record_route : List Point → Ending → ℕ → Option RouteSummary
  record_route points end_of_file elapsed =
      let t = record_points trip_start points in
      some (record {
        point_count = t.points;
        feature_count = t.features;
        distance = t.metres;
        elapsed_time = elapsed;
      })
  record_route points broken elapsed = none

-- `serialize`, with what `Sprintf` makes of a point.
module _ (sprintf : Point → String) where
  unfoldable pub serialize : Option Point → Outcome String
  serialize none = panic
  serialize (some point) = done (sprintf point)

  -- One iteration of `RouteChat` up to its sends: the notes that it sends, and `routeNotes`, which
  -- all chats share. It changes under the lock.
  unfoldable pub chat_note :
      Dict String (List RouteNote)
      → RouteNote
      → Outcome (List RouteNote × Dict String (List RouteNote))
  chat_note notes note = do
    key ← serialize note.location
    let rn = lookup_or [] key notes ++ (note ∷ [])
    done (rn, insert key rn notes)

  -- The iterations of all chats, in the order in which they take the lock.
  unfoldable pub chat_notes :
      Dict String (List RouteNote)
      → List RouteNote
      → Outcome (List (List RouteNote) × Dict String (List RouteNote))
  chat_notes notes [] = done ([], notes)
  chat_notes notes (note ∷ rest) = do
    (sent, notes1) ← chat_note notes note
    (more, notes2) ← chat_notes notes1 rest
    done (sent ∷ more, notes2)
