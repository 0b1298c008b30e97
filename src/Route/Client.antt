-- ===== src/Route/Client.antt =====
-- route_guide/client/client.go and route_guide/data/data.go. The calls of the generated client are a
-- parameter; a run is what it logs, and whether it goes on (`log.Fatalf` ends the program).
pub mod Points
pub mod Journey
pub mod Dialing
mod Examples
use eth_research.Base.{
  ℕ, zero, suc, ◌+◌, ◌-◌, ◌*◌, ◌^◌, ◌%◌, List, [], ◌∷◌, ◌++◌, Bool, true, false, not, Option, none,
  some, length, take, if◌then◌else◌, Outcome, done, panic, ◌>>=◌,
}
use eth_research.Base.Text.{String, str_eq}
use eth_research.Route.{
  Point, Rectangle, Feature, RouteNote, RouteSummary, Ending, end_of_file, broken,
}

pub data Line : Type 0 where
  getting : Point → Line
  got : Feature → Line
  looking : Rectangle → Line
  feature_line : String → ℕ → ℕ → Line
  traversing : ℕ → Line
  route_summary : RouteSummary → Line
  message_line : String → ℕ → ℕ → Line

abbrev pub Run : Type 0
Run = List Line × Bool

-- One part of the program after another.
abbrev pub followed_by : Run → Run → Run
followed_by (lines, false) next = (lines, false)
followed_by (lines, true) next = (lines ++ next.0, next.1)

-- `RouteGuideClient`: the answers, `none` for an error, and which sends work. The streams that are
-- received are what comes, and how they end. Of a chat whose send fails, `heard` notes are read.
pub record Stub : Type 0 where
  pub get_feature : Point → Option Feature
  pub list_features : Rectangle → Option (List Feature × Ending)
  pub record_route : Bool
  pub send_point : ℕ → Bool
  pub close_and_recv : List Point → Option RouteSummary
  pub route_chat : Bool
  pub send_note : ℕ → Bool
  pub receive_notes : List RouteNote → List RouteNote × Ending
  pub heard : ℕ

-- A coordinate zero, by its distance from the smallest int32.
abbrev pub origin : ℕ
origin = 2 ^ 31

-- `GetLatitude` and `GetLongitude`, which a nil location has as well.
abbrev pub get_latitude : Option Point → ℕ
get_latitude none = origin
get_latitude (some p) = p.latitude

abbrev pub get_longitude : Option Point → ℕ
get_longitude none = origin
get_longitude (some p) = p.longitude

-- The loop of `printFeatures`.
unfoldable pub print_received : List Feature → Ending → Run
print_received [] end_of_file = ([], true)
print_received [] broken = ([], false)
print_received (f ∷ fs) ending =
    followed_by
      (feature_line f.name (get_latitude f.location) (get_longitude f.location) ∷ [], true)
      (print_received fs ending)

-- Whether the sends work, from number `n` on.
unfoldable pub send_each {ℓ} : {A : Type ℓ} → (ℕ → Bool) → ℕ → List A → Bool
send_each works n [] = true
send_each works n (x ∷ xs) = elim (works n) [ false ↦ false | true ↦ send_each works (suc n) xs ]

-- The goroutine of `runRouteChat`, which reads the fields of the location.
unfoldable pub print_notes : List RouteNote → Ending → Outcome Run
print_notes [] end_of_file = done ([], true)
print_notes [] broken = done ([], false)
print_notes (n ∷ ns) ending = elim n.location [
  | none ↦ panic
  | some p ↦ do
    rest ← print_notes ns ending
    done (followed_by (message_line n.message p.latitude p.longitude ∷ [], true) rest)
]

-- The notes that `runRouteChat` sends.
abbrev note_at : ℕ → String → RouteNote
note_at east text = record {
  location = some (record { latitude = origin; longitude = origin + east });
  message = text;
}

abbrev pub chat_script : List RouteNote
chat_script =
    note_at 1 "First message"
    ∷ note_at 2 "Second message"
    ∷ note_at 3 "Third message"
    ∷ note_at 1 "Fourth message"
    ∷ note_at 2 "Fifth message"
    ∷ note_at 3 "Sixth message"
    ∷ []

module _ (client : Stub) where
  unfoldable pub print_feature : Point → Run
  print_feature point = elim (client.get_feature point) [
    | none ↦ (getting point ∷ [], false)
    | some f ↦ (getting point ∷ got f ∷ [], true)
  ]

  unfoldable pub print_features : Rectangle → Run
  print_features rect = elim (client.list_features rect) [
    | none ↦ (looking rect ∷ [], false)
    | some (features, ending) ↦
        followed_by (looking rect ∷ [], true) (print_received features ending)
  ]

  -- `runRouteChat`
  unfoldable pub run_route_chat : Outcome Run
  run_route_chat =
      let (received, ending) = client.receive_notes chat_script in
      if not client.route_chat
      then done ([], false)
      else elim (send_each client.send_note 0 chat_script) [
        | true ↦ print_notes received ending
        | false ↦ print_notes (take client.heard received) broken
      ]

  -- The numbers of `math/rand` from a seeded source: `Int31n`.
  module _ {Source : Type 0} (int31n : ℕ → Source → ℕ × Source) where
    -- An int32 `(a - low) * 1e7`, with its wrap-around.
    unfoldable pub to_units : ℕ → ℕ → ℕ
    to_units low a = (2 ^ 31 + (2 ^ 32 - low * 10 ^ 7) + a * 10 ^ 7) % 2 ^ 32

    unfoldable pub random_point : Source → Point × Source
    random_point r =
        let (a, r1) = int31n 180 r in
        let (b, r2) = int31n 360 r1 in
        (record { latitude = to_units 90 a; longitude = to_units 180 b }, r2)

    -- The loop that appends random points.
    unfoldable pub random_points : ℕ → Source → List Point
    random_points zero r = []
    random_points (suc n) r = let (p, r1) = random_point r in p ∷ random_points n r1

    -- The route of `runRecordRoute`.
    unfoldable pub random_route : Source → List Point
    random_route r = let (a, r1) = int31n 100 r in random_points (a + 2) r1

    unfoldable pub run_record_route : Source → Run
    run_record_route r =
        let points = random_route r in
        let start = traversing (length points) in
        if not client.record_route
        then (start ∷ [], false)
        else elim (send_each client.send_point 0 points) [
          | false ↦ (start ∷ [], false)
          | true ↦ elim (client.close_and_recv points) [
            | none ↦ (start ∷ [], false)
            | some reply ↦ (start ∷ route_summary reply ∷ [], true)
          ]
        ]

    -- What `main` looks for: a feature that is there, one that is not, and an area.
    abbrev pub valid_point : Point
    valid_point = record { latitude = origin + 409146138; longitude = origin - 746188906 }

    abbrev pub missing_point : Point
    missing_point = record { latitude = origin; longitude = origin }

    abbrev pub area : Rectangle
    area = record {
      lo = some (record { latitude = origin + 400000000; longitude = origin - 750000000 });
      hi = some (record { latitude = origin + 420000000; longitude = origin - 730000000 });
    }

    -- `main`, from the client on: all calls but the chat, then the chat.
    unfoldable pub run_calls : Source → Run
    run_calls r = followed_by (print_feature valid_point) (
        followed_by (print_feature missing_point)
          (followed_by (print_features area) (run_record_route r)))

    unfoldable pub run_client : Source → Outcome Run
    run_client r = elim (run_calls r).1 [
      | false ↦ done (run_calls r)
      | true ↦ do chat ← run_route_chat; done (followed_by (run_calls r) chat)
    ]

-- `data.Path`, with the directory of the package.
module _ (is_abs : String → Bool) (join : String → String → String) (basepath : String) where
  unfoldable pub data_path : String → String
  data_path rel = if is_abs rel then rel else join basepath rel

  -- The choice of `opts` in `main`: the name of the certificates where TLS is asked for.
  unfoldable pub client_certificates : Bool → String → Option String
  client_certificates tls ca_file =
      if tls
      then some (if str_eq ca_file "" then data_path "x509/ca_cert.pem" else ca_file)
      else none
