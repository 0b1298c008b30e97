-- ===== src/Route/Hosting/Examples.antt =====
-- A server with TLS, on the packaged certificate.
use eth_research.Base.{
  ℕ, ◌≡◌, refl, ◌⊎◌, List, [], ◌∷◌, Option, ◌==◌, true, false, none, some, length, done,
  if◌then◌else◌,
}
use eth_research.Base.Text.{str_eq, concat}
use eth_research.Route.Data.{example_data}
use eth_research.Route.Examples.{point_at, steps, print_point}
use eth_research.Route.{end_of_file}
use eth_research.Route.Server.{Server, Request, Reply, feature_at, features_in, route_of, note}
use eth_research.Route.Hosting.{ServerFlags, Hosting, not_listening, no_credentials, served, serve}
use eth_research.Route.Hosting.Whole.{loaded, Chosen, serve_lem}

abbrev host : Hosting
host = record {
  Credentials = ℕ;
  listens = λ port. port == 10000;
  new_server_tls_from_file =
      λ cert key. if str_eq cert "data/x509/server_cert.pem" then some 1 else none;
  is_abs = λ p. false;
  join = λ p q. concat p (concat "/" q);
  basepath = "data";
  read_file = λ p. none;
  unmarshal = λ b. none;
}

abbrev secure : ServerFlags
secure = record { tls = true; cert_file = ""; key_file = ""; json_db_file = ""; port = 10000 }

abbrev asked : List Request
asked =
    feature_at (point_at 3 4)
    ∷ features_in (record { lo = some (point_at 0 0); hi = some (point_at 5 5) }) (λ n. true)
    ∷ route_of (point_at 3 4 ∷ []) end_of_file 2
    ∷ note (record { location = some (point_at 1 1); message = "hello" })
    ∷ []

serve_lem_example :
    ((host.listens secure.port ≡ false)
      × (serve host steps print_point secure asked ≡ not_listening))
    ⊎ (((host.listens secure.port ≡ true)
          × (secure.tls ≡ true)
          × (loaded host secure ≡ none)
          × (serve host steps print_point secure asked ≡ no_credentials))
        ⊎ ((host.listens secure.port ≡ true)
            × ((creds : Option ℕ) × (replies : List Reply) × (s1 : Server) × Chosen host secure
                  creds
                × (serve host steps print_point secure asked ≡ served creds (done (replies, s1)))
                × (length replies ≡ length asked)
                × (s1.saved_features ≡ example_data))))
serve_lem_example = serve_lem host steps print_point secure asked refl refl
