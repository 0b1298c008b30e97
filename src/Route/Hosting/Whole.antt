-- ===== src/Route/Hosting/Whole.antt =====
-- route_guide/server/server.go: `main` without a file of features.
use eth_research.Base.{
  ℕ, ◌≡◌, refl, ◌∙◌, inl, inr, ◌⊎◌, List, true, false, Option, none, some, length, done,
  Option-cases, Bool-cases,
}
use eth_research.Base.Text.{String}
use eth_research.Route.{Point}
use eth_research.Route.Data.{example_data}
use eth_research.Route.Server.{Server, Request, Reply, new_server, handle_all}
use eth_research.Route.Server.Requests.{all_complete, new_server_lem}
use eth_research.Route.Hosting.{
  ServerFlags, Hosting, not_listening, no_credentials, served, file_or, server_credentials, serve,
}

-- The files of the certificate and of the key that the server asks for.
abbrev pub loaded : (host : Hosting) → ServerFlags → Option host.Credentials
loaded host flags =
    host.new_server_tls_from_file (file_or host flags.cert_file "x509/server_cert.pem")
      (file_or host flags.key_file "x509/server_key.pem")

-- What the server chooses: nothing without TLS, and with it what the files give.
abbrev pub Chosen : (host : Hosting) → ServerFlags → Option host.Credentials → Type 0
Chosen host flags creds =
    ((flags.tls ≡ false) × (creds ≡ none))
    ⊎ ((flags.tls ≡ true)
        × ((c : host.Credentials) × ((loaded host flags ≡ some c) × (creds ≡ some c))))

module _ (host : Hosting) (calc_distance : Point → Point → ℕ) (sprintf : Point → String)
    (flags : ServerFlags) (requests : List Request) where
  serve_step :
      (creds : Option host.Credentials) (s : Server)
      → host.listens flags.port ≡ true
      → server_credentials host flags ≡ some creds
      → new_server host.read_file host.unmarshal flags.json_db_file ≡ some s
      → serve host calc_distance sprintf flags requests
        ≡ served creds (handle_all calc_distance sprintf s requests)
  unfolding serve
  serve_step creds s listening chosen made = rw (serve, listening, chosen, made) refl

  serve_refused :
      host.listens flags.port ≡ true
      → server_credentials host flags ≡ none
      → serve host calc_distance sprintf flags requests ≡ no_credentials
  unfolding serve
  serve_refused listening chosen = rw (serve, listening, chosen) refl

  serve_silent :
      host.listens flags.port ≡ false
      → serve host calc_distance sprintf flags requests ≡ not_listening
  unfolding serve
  serve_silent silent = rw (serve, silent) refl

  credentials_cases :
      ((flags.tls ≡ true) × (loaded host flags ≡ none) × (server_credentials host flags ≡ none))
      ⊎ ((creds : Option host.Credentials) × (server_credentials host flags ≡ some creds)
          × Chosen host flags creds)
  unfolding server_credentials
  credentials_cases = elim (Bool-cases flags.tls) [
    | inr plain ↦ inr (none, rw (server_credentials, plain) refl, inl (plain, refl))
    | inl secure ↦ elim (Option-cases (loaded host flags)) [
      | inl bad ↦ inl (secure, bad, rw (server_credentials, secure, bad) refl)
      | inr (c, good) ↦
          inr (some c, rw (server_credentials, secure, good) refl, inr (secure, (c, (good, refl))))
    ]
  ]

  -- Without a file of features: `main` does not listen where its port is taken, and ends at once
  -- where TLS is asked for and its certificate or key, given or packaged, does not load. Otherwise it
  -- serves, over these credentials or over none, every sequence of complete requests, one reply to
  -- each, and keeps the example features.
  pub serve_lem :
      flags.json_db_file ≡ ""
      → all_complete requests ≡ true
      → ((host.listens flags.port ≡ false)
          × (serve host calc_distance sprintf flags requests ≡ not_listening))
        ⊎ (((host.listens flags.port ≡ true)
              × (flags.tls ≡ true)
              × (loaded host flags ≡ none)
              × (serve host calc_distance sprintf flags requests ≡ no_credentials))
            ⊎ ((host.listens flags.port ≡ true)
                × ((creds : Option host.Credentials) × (replies : List Reply) × (s1 : Server)
                    × Chosen host flags creds
                    × (serve host calc_distance sprintf flags requests
                        ≡ served creds (done (replies, s1)))
                    × (length replies ≡ length requests)
                    × (s1.saved_features ≡ example_data))))
  serve_lem no_file e = elim (Bool-cases (host.listens flags.port)) [
    | inr silent ↦ inl (silent, serve_silent silent)
    | inl listening ↦ elim credentials_cases [
      | inl (secure, bad, chosen) ↦
          inr (inl (listening, secure, bad, serve_refused listening chosen))
      | inr (creds, chosen, how) ↦
          let (s, (replies, (s1, made, steps, count, kept))) =
            new_server_lem calc_distance sprintf host.read_file host.unmarshal requests e in
          let step = serve_step creds s listening chosen (rw no_file made) in
          inr (inr (listening, (creds, replies, s1, how, step ∙ rw steps refl, count, kept)))
    ]
  ]
