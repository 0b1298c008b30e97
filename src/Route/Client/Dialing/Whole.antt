-- ===== src/Route/Client/Dialing/Whole.antt =====
-- route_guide/client/client.go: `main` of the client on a server with the example features.
use eth_research.Base.{ℕ, ◌≡◌, ◌∙◌, ap, List, [], ◌∷◌, ◌++◌, true, some, length, done, refl}
use eth_research.Base.Text.{String}
use eth_research.Route.{Point}
use eth_research.Route.Data.{example_data}
use eth_research.Route.Server.Requests.{example_data-IsLocated}
use eth_research.Route.Client.{Line, traversing, route_summary, random_route, run_client}
use eth_research.Route.Client.Journey.{on_server, chat_lines, reply, run_client_lem}
use eth_research.Route.Client.Dialing.{
  ClientFlags, ClientOption, Network, ran, client_options, client_main,
}

module _ (net : Network) {Source : Type 0} (int31n : ℕ → Source → ℕ × Source) (r : Source)
    (flags : ClientFlags) where
  dialed_lem :
      (opts : List (ClientOption net.Credentials)) (conn : net.Connection)
      → client_options net flags ≡ some opts
      → net.dial flags.server_addr opts ≡ some conn
      → client_main net int31n r flags ≡ ran (run_client (net.stub conn) int31n r)
  unfolding client_main
  dialed_lem opts conn chosen dialed = rw (client_main, chosen, dialed) refl

  -- The server has the example features and no notes, the connection works, and the text differs for
  -- different points: where `main` of the client gets its options, with TLS or without, and dials the
  -- address with them, it ends without a fatal error. Last it logs the length of its random route, the summary of it that the server is
  -- due to reply, and to each of its six notes those at the same point until then.
  pub client_main_lem :
      (calc_distance : Point → Point → ℕ) (sprintf : Point → String)
      (exact : (p q : Point) → sprintf p ≡ sprintf q → p ≡ q) (elapsed : ℕ)
      (opts : List (ClientOption net.Credentials)) (conn : net.Connection)
      → client_options net flags ≡ some opts
      → net.dial flags.server_addr opts ≡ some conn
      → net.stub conn ≡ on_server example_data calc_distance sprintf elapsed
      → (before : List Line) × (client_main net int31n r flags
          ≡ ran (
              done (
                before
                    ++ (traversing (length (random_route (net.stub conn) int31n r))
                        ∷ route_summary (
                            reply example_data calc_distance sprintf elapsed
                              (random_route (net.stub conn) int31n r))
                        ∷ [])
                    ++ chat_lines,
                true,
              )))
  client_main_lem calc_distance sprintf exact elapsed opts conn chosen dialed behind =
      let (before, run) =
        run_client_lem example_data example_data-IsLocated calc_distance sprintf exact elapsed
          int31n r in
      let step = dialed_lem opts conn chosen dialed in (before, step ∙ ap ran (rw behind run))
