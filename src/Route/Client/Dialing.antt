-- ===== src/Route/Client/Dialing.antt =====
-- route_guide/client/client.go: `main`, from its flags over the connection to its calls. The
-- certificates and the transport are gRPC's, and are parameters.
pub mod Whole
mod Examples
use eth_research.Base.{ℕ, List, [], ◌∷◌, Bool, Option, none, some, Outcome}
use eth_research.Base.Text.{String}
use eth_research.Route.Client.{Run, Stub, client_certificates, run_client}

-- The flags of the client.
pub record ClientFlags : Type 0 where
  pub tls : Bool
  pub ca_file : String
  pub server_addr : String
  pub server_host_override : String

-- The options of the connection.
pub data ClientOption (Credentials : Type 0) : Type 0 where
  with_transport_credentials : Credentials → ClientOption Credentials
  with_insecure with_block : ClientOption Credentials

-- The certificate of a client, dialing, the tests of path/filepath with the directory of package
-- data, and what the generated client answers over a connection.
pub record Network : Type 1 where
  pub Credentials : Type 0
  pub Connection : Type 0
  pub new_client_tls_from_file : String → String → Option Credentials
  pub dial : String → List (ClientOption Credentials) → Option Connection
  pub is_abs : String → Bool
  pub join : String → String → String
  pub basepath : String
  pub stub : Connection → Stub

-- How `main` ends: at one of its fatal errors, or with its calls.
pub data Connected : Type 0 where
  no_credentials not_dialed : Connected
  ran : Outcome Run → Connected

module _ (net : Network) where
  open net use {Credentials}

  -- The choice of `opts`, where `none` is the fatal error.
  unfoldable pub client_options : ClientFlags → Option (List (ClientOption Credentials))
  client_options flags =
      elim (client_certificates net.is_abs net.join net.basepath flags.tls flags.ca_file) [
        | none ↦ some (with_insecure ∷ with_block ∷ [])
        | some file ↦ elim (net.new_client_tls_from_file file flags.server_host_override) [
          | none ↦ none
          | some creds ↦ some (with_transport_credentials creds ∷ with_block ∷ [])
        ]
      ]

  module _ {Source : Type 0} (int31n : ℕ → Source → ℕ × Source) where
    -- `main`, with the source of random numbers.
    unfoldable pub client_main : Source → ClientFlags → Connected
    client_main r flags = elim (client_options flags) [
      | none ↦ no_credentials
      | some opts ↦ elim (net.dial flags.server_addr opts) [
        | none ↦ not_dialed
        | some conn ↦ ran (run_client (net.stub conn) int31n r)
      ]
    ]
