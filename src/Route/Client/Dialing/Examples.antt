-- ===== src/Route/Client/Dialing/Examples.antt =====
-- A client with TLS, on a network of one server.
use eth_research.Base.{
  ℕ, ◌≡◌, refl, List, [], ◌∷◌, ◌++◌, true, false, some, none, length, done, min, ◌+◌, ◌-◌,
  if◌then◌else◌,
}
use eth_research.Base.Text.{str_eq, concat}
use eth_research.Route.Data.{example_data}
use eth_research.Route.Examples.{steps, print_point, print_point_exact}
use eth_research.Route.Client.{
  Line, traversing, route_summary, random_route, client_certificates, data_path,
}
use eth_research.Route.Client.Journey.{on_server, chat_lines, reply}
use eth_research.Route.Client.Dialing.{
  ClientFlags, with_transport_credentials, with_block, Network, ran, client_options, client_main,
}
use eth_research.Route.Client.Dialing.Whole.{client_main_lem}

abbrev counting : ℕ → ℕ → ℕ × ℕ
counting n r = (min r (n - 1), r + 1)

-- Only the packaged certificate loads.
abbrev one_server : Network
one_server = record {
  Credentials = ℕ;
  Connection = ℕ;
  new_client_tls_from_file =
      λ file name. if str_eq file "data/x509/ca_cert.pem" then some 1 else none;
  dial = λ addr opts. if str_eq addr "localhost:10000" then some 0 else none;
  is_abs = λ p. false;
  join = λ p q. concat p (concat "/" q);
  basepath = "data";
  stub = λ conn. on_server example_data steps print_point 3;
}

abbrev secure : ClientFlags
secure = record {
  tls = true;
  ca_file = "";
  server_addr = "localhost:10000";
  server_host_override = "x.test.youtube.com";
}

options_loaded :
    client_options one_server secure ≡ some (with_transport_credentials 1 ∷ with_block ∷ [])
unfolding client_options client_certificates data_path concat
options_loaded = refl

client_main_lem_example :
    (before : List Line) × (client_main one_server counting 7 secure
      ≡ ran (
          done (
            before
                ++ (traversing (length (random_route (one_server.stub 0) counting 7))
                    ∷ route_summary (
                        reply example_data steps print_point 3
                          (random_route (one_server.stub 0) counting 7))
                    ∷ [])
                ++ chat_lines,
            true,
          )))
client_main_lem_example =
    client_main_lem one_server counting 7 secure steps print_point print_point_exact 3
      (with_transport_credentials 1 ∷ with_block ∷ []) 0 options_loaded refl refl
