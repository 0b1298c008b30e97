-- ===== src/Route/Hosting.antt =====
-- route_guide/server/server.go: `main`, from its flags to the requests that it serves. Listening, the
-- certificates and the transport are gRPC's and the system's, and are parameters.
pub mod Whole
mod Examples
use eth_research.Base.{ℕ, List, Bool, Option, none, some, if◌then◌else◌, Outcome}
use eth_research.Base.Text.{String, str_eq}
use eth_research.Route.{Point, Feature}
use eth_research.Route.Client.{data_path}
use eth_research.Route.Server.{Server, new_server, Request, Reply, handle_all}

-- The flags of the server.
pub record ServerFlags : Type 0 where
  pub tls : Bool
  pub cert_file : String
  pub key_file : String
  pub json_db_file : String
  pub port : ℕ

-- `net.Listen` at a port of localhost, the certificate and the key of a server, the tests of
-- path/filepath with the directory of package data, and what reads and decodes features.
pub record Hosting : Type 1 where
  pub Credentials : Type 0
  pub listens : ℕ → Bool
  pub new_server_tls_from_file : String → String → Option Credentials
  pub is_abs : String → Bool
  pub join : String → String → String
  pub basepath : String
  pub read_file : String → Option (List ℕ)
  pub unmarshal : List ℕ → Option (List Feature)

-- How `main` ends: at one of its fatal errors, or with the requests served, over the credentials.
pub data Hosted (Credentials : Type 0) : Type 0 where
  not_listening no_credentials no_features : Hosted Credentials
  served : Option Credentials → Outcome (List Reply × Server) → Hosted Credentials

module _ (host : Hosting) where
  open host use {Credentials}

  -- The file of a flag, or the one of package data where the flag is empty.
  abbrev pub file_or : String → String → String
  file_or given packaged =
      if str_eq given "" then data_path host.is_abs host.join host.basepath packaged else given

  -- The choice of `opts`: `none` is the fatal error.
  unfoldable pub server_credentials : ServerFlags → Option (Option Credentials)
  server_credentials flags =
      if flags.tls
      then elim (host.new_server_tls_from_file (file_or flags.cert_file "x509/server_cert.pem")
          (file_or flags.key_file "x509/server_key.pem")) [
            | none ↦ none
            | some creds ↦ some (some creds)
          ]
      else some none

  module _ (calc_distance : Point → Point → ℕ) (sprintf : Point → String) where
    -- `main`, with the requests that come.
    unfoldable pub serve : ServerFlags → List Request → Hosted Credentials
    serve flags requests =
        if host.listens flags.port
        then elim (server_credentials flags) [
          | none ↦ no_credentials
          | some creds ↦ elim (new_server host.read_file host.unmarshal flags.json_db_file) [
            | none ↦ no_features
            | some s ↦ served creds (handle_all calc_distance sprintf s requests)
          ]
        ]
        else not_listening
