-- ===== src/Route/Server/Requests.antt =====
-- route_guide/server/server.go: which requests the server answers.
use mathlib.Core.Path.{ap₂}
use eth_research.Base.{
  ℕ, zero, suc, ◌≡◌, refl, ap, sym, ◌∙◌, inl, inr, ◌⊎◌, List, [], ◌∷◌, ◌++◌, Bool, true, false,
  ◌&&◌, Option, none, some, get_or, drop, length, arith, Bool-cases, Option-cases, done, panic,
}
use eth_research.Base.Text.{String, string_eq}
use eth_research.Base.Dict.{lookup_or, insert}
use eth_research.Route.{
  Point, Rectangle, Feature, RouteNote, get_feature, record_route, in_range, list_features,
  chat_note, serialize,
}
use eth_research.Route.Listing.{IsLocated, list_features_lem, send_all, within}
use eth_research.Route.Data.{example_data}
use eth_research.Route.Server.{
  Server, Request, feature_at, features_in, route_of, note, Reply, found, listed, summary, notes,
  new_server, load_features, handle, handle_all,
}

abbrev pub given : Option Point → Bool
given none = false
given (some p) = true

-- A request whose message has the parts that the code reads: both corners, or the note's location.
abbrev pub complete : Request → Bool
complete (feature_at point) = true
complete (features_in rect works) = given rect.lo && given rect.hi
complete (route_of points ending elapsed) = true
complete (note n) = given n.location

abbrev pub all_complete : List Request → Bool
all_complete [] = true
all_complete (r ∷ rs) = complete r && all_complete rs

abbrev all_located : List Feature → Bool
all_located [] = true
all_located (f ∷ fs) = given f.location && all_located fs

given-some : (o : Option Point) → given o ≡ true → (p : Point) × (o ≡ some p)
given-some none e = cc
given-some (some p) e = (p, refl)

abbrev some_or : Feature → Option Feature → Feature
some_or f none = f
some_or f (some g) = g

all_located-IsLocated : (fs : List Feature) → all_located fs ≡ true → IsLocated fs
all_located-IsLocated [] e i f at = cc
all_located-IsLocated (g ∷ fs) e zero f at =
    let here : given g.location ≡ true = ground (arith, e) in
    let (p, is) = given-some g.location here in
    (p, ap (λ (o : Option Feature). (some_or g o).location) (sym at) ∙ is)
all_located-IsLocated (g ∷ fs) e (suc i) f at =
    let rest : all_located fs ≡ true = ground (arith, e) in all_located-IsLocated fs rest i f at

pub example_data-IsLocated : IsLocated example_data
example_data-IsLocated = all_located-IsLocated example_data refl

-- `inRange` panics where a corner is missing.
in_range_incomplete :
    (p : Point) (rect : Rectangle)
    → (given rect.lo && given rect.hi) ≡ false
    → in_range (some p) rect ≡ panic
unfolding in_range
in_range_incomplete p rect e = elim (Option-cases rect.lo) [
  | inl no_lo ↦ rw (in_range, no_lo) refl
  | inr (lo, is_lo) ↦ elim (Option-cases rect.hi) [
    | inl no_hi ↦ rw (in_range, is_lo, no_hi) refl
    | inr (hi, is_hi) ↦ absurd (ground (arith, e, is_lo, is_hi))
  ]
]

list_features_incomplete :
    (f : Feature) (fs : List Feature) (rect : Rectangle) (works : ℕ → Bool)
    → IsLocated (f ∷ fs)
    → (given rect.lo && given rect.hi) ≡ false
    → list_features rect works 0 (f ∷ fs) ≡ panic
unfolding list_features
list_features_incomplete f fs rect works located e =
    let (p, is) = located 0 f refl in rw (list_features, is, in_range_incomplete p rect e) refl

list_features_complete :
    (fs : List Feature) (rect : Rectangle) (works : ℕ → Bool)
    → IsLocated fs
    → (given rect.lo && given rect.hi) ≡ true
    → (sent : List Feature) × ((fine : Bool) × (list_features rect works 0 fs ≡ done (sent, fine)))
list_features_complete fs rect works located e =
    let has_lo : given rect.lo ≡ true = ground (arith, e) in
    let has_hi : given rect.hi ≡ true = ground (arith, e) in
    let (lo, is_lo) = given-some rect.lo has_lo in
    let (hi, is_hi) = given-some rect.hi has_hi in
    let answer = send_all works 0 (within lo hi fs) in
    let is : rect ≡ record { lo = some lo; hi = some hi } =
      ap₂ (λ (x y : Option Point). record { lo = x; hi = y }) is_lo is_hi in
    let sends = list_features_lem fs lo hi works 0 located in
    (answer.0, (answer.1, ap (λ r. list_features r works 0 fs) is ∙ sends))

module _ (calc_distance : Point → Point → ℕ) (sprintf : Point → String) where
  -- What a note at a point is answered with, and the server after it.
  note_answer : Server → Point → RouteNote → List RouteNote × Server
  note_answer s p n =
      let rn = lookup_or [] (sprintf p) s.route_notes ++ (n ∷ []) in
      (
        rn,
        record {
          saved_features = s.saved_features;
          route_notes = insert (sprintf p) rn s.route_notes;
        },
      )

  -- A server with at least one saved feature, all of them with locations, answers a request that is
  -- complete and keeps its features; a request that is not makes it panic.
  pub handle_lem :
      (s : Server) (f : Feature) (fs : List Feature) (r : Request)
      → s.saved_features ≡ f ∷ fs
      → IsLocated (f ∷ fs)
      → ((complete r ≡ false) × (handle calc_distance sprintf s r ≡ panic))
        ⊎ ((complete r ≡ true)
            × ((reply : Reply) × ((s1 : Server) × (handle calc_distance sprintf s r
                    ≡ done (reply, s1))
                  × (s1.saved_features ≡ s.saved_features))))
  unfolding handle chat_note serialize note_answer
  handle_lem s f fs (feature_at point) is located =
      inr (refl, (found (get_feature s.saved_features point), (s, refl, refl)))
  handle_lem s f fs (route_of points ending elapsed) is located = inr (
    refl,
    (summary (record_route s.saved_features calc_distance points ending elapsed), (s, refl, refl)),
  )
  handle_lem s f fs (note n) is located = elim (Option-cases n.location) [
    | inl gone ↦ inl (rw gone refl, rw (handle, chat_note, gone) refl)
    | inr (p, at) ↦ inr (
      rw at refl,
      (notes (note_answer s p n).0, ((note_answer s p n).1, rw (handle, chat_note, at) refl, refl)),
    )
  ]
  handle_lem s f fs (features_in rect works) is located =
      elim (Bool-cases (given rect.lo && given rect.hi)) [
        | inr part ↦
            inl (part, rw (handle, is, list_features_incomplete f fs rect works located part) refl)
        | inl both ↦
            let (sent, (fine, sends)) = list_features_complete (f ∷ fs) rect works located both in
            inr (both, (listed sent fine, (s, rw (handle, is, sends) refl, refl)))
      ]

  handle_all-done :
      (s : Server) (f : Feature) (fs : List Feature) (rs : List Request)
      → s.saved_features ≡ f ∷ fs
      → IsLocated (f ∷ fs)
      → all_complete rs ≡ true
      → (replies : List Reply) × ((s1 : Server) × (handle_all calc_distance sprintf s rs
            ≡ done (replies, s1))
          × (length replies ≡ length rs)
          × (s1.saved_features ≡ f ∷ fs))
  unfolding handle_all
  handle_all-done s f fs [] is located e = ([], (s, refl, refl, is))
  handle_all-done s f fs (r ∷ rs) is located e =
      let first : complete r ≡ true = ground (arith, e) in
      let rest : all_complete rs ≡ true = ground (arith, e) in
      elim (handle_lem s f fs r is located) [
        | inl (part, bad) ↦ absurd (ground (arith, first, part))
        | inr (whole, (reply, (s1, step, kept))) ↦
            let (replies, (s2, steps, count, kept2)) =
              handle_all-done s1 f fs rs (kept ∙ is) located rest in
            (reply ∷ replies, (s2, rw (handle_all, step, steps) refl, ap suc count, kept2))
      ]

  -- The server that starts without a file answers every sequence of complete requests, one reply
  -- to each, and keeps the example features.
  pub new_server_lem :
      (read_file : String → Option (List ℕ)) (unmarshal : List ℕ → Option (List Feature))
      (rs : List Request)
      → all_complete rs ≡ true
      → (s : Server) × ((replies : List Reply) × ((s1 : Server) × (new_server read_file unmarshal ""
              ≡ some s)
            × (handle_all calc_distance sprintf s rs ≡ done (replies, s1))
            × (length replies ≡ length rs)
            × (s1.saved_features ≡ example_data)))
  unfolding new_server load_features
  new_server_lem read_file unmarshal rs e =
      let s : Server = record { saved_features = example_data; route_notes = [] } in
      let (replies, (s1, steps, count, kept)) =
        handle_all-done s (get_or example_data 0 (record { name = ""; location = none }))
          (drop 1 example_data) rs refl example_data-IsLocated e in
      (s, (replies, (s1, refl, steps, count, kept)))
