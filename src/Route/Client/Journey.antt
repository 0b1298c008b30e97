-- ===== src/Route/Client/Journey.antt =====
-- route_guide/client/client.go on route_guide/server/server.go: a whole run of the client.
use eth_research.Base.{
  ℕ, suc, ◌+◌, ◌-◌, ◌%◌, ◌^◌, ◌≡◌, refl, sym, ap, ◌∙◌, List, [], ◌∷◌, ◌++◌, Bool, true, false,
  Option, none, some, length, Outcome, done, panic,
}
use eth_research.Base.Text.{String}
use eth_research.Route.{
  Point, Feature, RouteNote, RouteSummary, Ending, end_of_file, broken, get_feature, list_features,
  record_route, chat_notes,
}
use eth_research.Route.Listing.{IsLocated, list_features_lem, send_all, within}
use eth_research.Route.Chat.{notes_of, answers, notes_at, chat_notes_lem}
use eth_research.Route.Stream.{flatten}
use eth_research.Route.Summary.{features_on, length_of, record_route_lem}
use eth_research.Route.Client.{
  route_summary, traversing, random_route, Line, message_line, Run, followed_by, Stub, origin,
  chat_script, print_received, send_each, print_notes, print_feature, print_features,
  run_route_chat, run_record_route, valid_point, missing_point, area, run_calls, run_client,
}

-- The calls of a server with these features and no notes, over a connection that works.
abbrev listed : Outcome (List Feature × Bool) → Option (List Feature × Ending)
listed panic = none
listed (done (sent, fine)) = some (sent, end_of_file)

abbrev chatted : {N : Type 0} → Outcome (List (List RouteNote) × N) → List RouteNote × Ending
chatted panic = ([], broken)
chatted (done (sent, notes)) = (flatten sent, end_of_file)

module _ (features : List Feature) (calc_distance : Point → Point → ℕ) (sprintf : Point → String)
    (elapsed : ℕ) where
  abbrev pub on_server : Stub
  on_server = record {
    get_feature = λ p. some (get_feature features p);
    list_features = λ rect. listed (list_features rect (λ n. true) 0 features);
    record_route = true;
    send_point = λ n. true;
    close_and_recv = λ ps. record_route features calc_distance ps end_of_file elapsed;
    route_chat = true;
    send_note = λ n. true;
    receive_notes = λ ns. chatted (chat_notes sprintf [] ns);
    heard = 0;
  }

  -- The summary that is due for a route.
  abbrev pub reply : List Point → RouteSummary
  reply ps = record {
    point_count = length ps % 2 ^ 32;
    feature_count = features_on features ps % 2 ^ 32;
    distance = length_of calc_distance none ps % 2 ^ 32;
    elapsed_time = elapsed;
  }

-- What the chat logs: to each note, those at its point until then.
abbrev pub chat_lines : List Line
chat_lines =
    message_line "First message" origin (origin + 1)
    ∷ message_line "Second message" origin (origin + 2)
    ∷ message_line "Third message" origin (origin + 3)
    ∷ message_line "First message" origin (origin + 1)
    ∷ message_line "Fourth message" origin (origin + 1)
    ∷ message_line "Second message" origin (origin + 2)
    ∷ message_line "Fifth message" origin (origin + 2)
    ∷ message_line "Third message" origin (origin + 3)
    ∷ message_line "Sixth message" origin (origin + 3)
    ∷ []

followed_by-fine :
    (a b : Run) (lines : List Line)
    → a.1 ≡ true
    → b ≡ (lines, true)
    → followed_by a b ≡ (a.0 ++ lines, true)
followed_by-fine (before, true) b lines e f = ap (λ (r : Run). (before ++ r.0, r.1)) f
followed_by-fine (before, false) b lines e f = cc

send_each-true {ℓ} : {A : Type ℓ} (n : ℕ) (xs : List A) → send_each (λ n. true) n xs ≡ true
unfolding send_each
send_each-true n [] = refl
send_each-true n (x ∷ xs) = send_each-true (suc n) xs

print_received-fine : (fs : List Feature) → (print_received fs end_of_file).1 ≡ true
unfolding print_received
print_received-fine [] = refl
print_received-fine (f ∷ fs) = print_received-fine fs

script : List (Point × String)
script =
    (record { latitude = origin; longitude = origin + 1 }, "First message")
    ∷ (record { latitude = origin; longitude = origin + 2 }, "Second message")
    ∷ (record { latitude = origin; longitude = origin + 3 }, "Third message")
    ∷ (record { latitude = origin; longitude = origin + 1 }, "Fourth message")
    ∷ (record { latitude = origin; longitude = origin + 2 }, "Fifth message")
    ∷ (record { latitude = origin; longitude = origin + 3 }, "Sixth message")
    ∷ []

script-answers : print_notes (flatten (answers [] script)) end_of_file ≡ done (chat_lines, true)
unfolding print_notes answers notes_at script
script-answers = refl

notes_of-script : notes_of script ≡ chat_script
unfolding notes_of script
notes_of-script = refl

module _ (features : List Feature) (located : IsLocated features)
    (calc_distance : Point → Point → ℕ) (sprintf : Point → String)
    (exact : (p q : Point) → sprintf p ≡ sprintf q → p ≡ q) (elapsed : ℕ) where
  abbrev client : Stub
  client = on_server features calc_distance sprintf elapsed

  run_route_chat_lem : run_route_chat client ≡ done (chat_lines, true)
  unfolding run_route_chat send_each
  run_route_chat_lem =
      let (notes, step, logged) = chat_notes_lem sprintf exact script in
      let all : chat_notes sprintf [] chat_script ≡ done (answers [] script, notes) =
        ap (λ ns. chat_notes sprintf [] ns) (sym notes_of-script) ∙ step in
      rw (run_route_chat, all) script-answers

  print_features-fine :
      (lo hi : Point) → (print_features client (record { lo = some lo; hi = some hi })).1 ≡ true
  unfolding print_features
  print_features-fine lo hi =
      let fs = (send_all (λ n. true) 0 (within lo hi features)).0 in
      rw (print_features, list_features_lem features lo hi (λ n. true) 0 located)
        (print_received-fine fs)

  module _ {Source : Type 0} (int31n : ℕ → Source → ℕ × Source) (r : Source) where
    abbrev route : List Point
    route = random_route client int31n r

    run_record_route_lem : run_record_route client int31n r ≡ (
      traversing (length route)
          ∷ route_summary (reply features calc_distance sprintf elapsed route)
          ∷ [],
      true,
    )
    unfolding run_record_route
    run_record_route_lem =
        let ps = random_route client int31n r in
        rw
          (
            run_record_route,
            send_each-true 0 ps,
            record_route_lem features calc_distance ps elapsed,
          )
          refl

    run_calls_lem :
        (before : List Line) × (run_calls client int31n r ≡ (
          before
              ++ (traversing (length route)
                  ∷ route_summary (reply features calc_distance sprintf elapsed route)
                  ∷ []),
          true,
        ))
    unfolding run_calls print_feature
    run_calls_lem =
        let valid = (print_feature client (valid_point client int31n)).0 in
        let missing = (print_feature client (missing_point client int31n)).0 in
        let fs = print_features client (area client int31n) in
        let last =
          followed_by-fine fs (run_record_route client int31n r)
            (traversing (length route)
              ∷ route_summary (reply features calc_distance sprintf elapsed route)
              ∷ [])
            (print_features-fine
              (record { latitude = origin + 400000000; longitude = origin - 750000000 })
              (record { latitude = origin + 420000000; longitude = origin - 730000000 }))
            run_record_route_lem in
        (valid ++ (missing ++ fs.0), ap (λ (x : Run). (valid ++ (missing ++ x.0), x.1)) last)

    -- On a server whose saved features have locations and that has no notes, over a connection that
    -- works, with a text that differs for different points: the client ends without a fatal error.
    -- Last it logs the length of the random route, the summary of it that the server is due to
    -- reply, and to each of its six notes those at the same point until then.
    pub run_client_lem :
        (before : List Line) × (run_client client int31n r
          ≡ done (
            before
                ++ (traversing (length route)
                    ∷ route_summary (reply features calc_distance sprintf elapsed route)
                    ∷ [])
                ++ chat_lines,
            true,
          ))
    unfolding run_client
    run_client_lem =
        let (before, calls) = run_calls_lem in
        (
          before,
          rw (run_client, calls, run_route_chat_lem)
              (ap (λ (x : Run). done (followed_by x (chat_lines, true))) calls),
        )
