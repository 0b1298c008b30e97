-- ===== src/Epoch/Start.antt =====
-- epoch-extractor/main.go: `main`, from its flags over the connection to `runner`. The packages of
-- gRPC are a parameter; what they log is left out, and so is what `main` logs of a failed dial.
pub mod Whole
pub mod Panics
use eth_research.Base.{
  ℕ, List, [], ◌∷◌, ◌++◌, Option, none, some, ◌==◌, if◌then◌else◌, Outcome, done, ◌>>=◌,
}
use eth_research.Base.Text.{String, str_eq}
use eth_research.Epoch.Runner.{Client, new_client, Beacon, Report, runner}

-- The options of a connection; the last one has the size of a message, and the number and the delay
-- of the retries, in nanoseconds.
pub data DialOption (Credentials : Type 0) : Type 0 where
  with_transport_credentials : Credentials → DialOption Credentials
  with_insecure : DialOption Credentials
  with_default_call_options : ℕ → ℕ → ℕ → DialOption Credentials

-- The files of certificates, dialing, and what the node behind a connection answers in each tick.
pub record Grpc : Type 1 where
  pub Credentials : Type 0
  pub Connection : Type 0
  pub new_client_tls_from_file : String → Option Credentials
  pub dial_context : String → List (DialOption Credentials) → Option Connection
  pub answers : Connection → List Beacon

-- What `main` logs of its flags.
pub data Notice : Type 0 where
  no_slots_per_epoch no_endpoint : Notice

pub data MainEnd : Type 0 where
  no_dial_options not_dialed : MainEnd
  ran : Client × List Report → MainEnd

unfoldable pub notices : ℕ → String → List Notice
notices slots_per_epoch endpoint =
    (if slots_per_epoch == 0 then no_slots_per_epoch ∷ [] else [])
    ++ (if str_eq endpoint "" then no_endpoint ∷ [] else [])

-- `dialInterval`, and the other numbers that `NewClient` sets for the connection.
abbrev pub dial_interval : ℕ
dial_interval = 5000000000

abbrev pub grpc_retries : ℕ
grpc_retries = 5

abbrev pub max_call_recv_msg_size : ℕ
max_call_recv_msg_size = 4194304

module _ (grpc : Grpc) where
  open grpc use {Credentials, Connection}

  -- `ConstructDialOptions`, where `none` is nil.
  unfoldable pub construct_dial_options :
      ℕ → String → ℕ → ℕ → List (DialOption Credentials) → Option (List (DialOption Credentials))
  construct_dial_options size with_cert retries delay extra_opts =
      let with_security = λ (transport_security : DialOption Credentials). some (
        transport_security
        ∷ with_default_call_options (if size == 0 then 52428800 else size) retries delay
        ∷ extra_opts) in
      if str_eq with_cert ""
      then with_security with_insecure
      else elim (grpc.new_client_tls_from_file with_cert) [
        | none ↦ none
        | some creds ↦ with_security (with_transport_credentials creds)
      ]

  module _ (bytes2hex : List ℕ → List ℕ) (div_slot : ℕ → ℕ → Outcome ℕ) where
    -- `main`, with the values of its two flags: what it logs of them, and how it ends.
    unfoldable pub main : ℕ → String → Outcome (List Notice × MainEnd)
    main slots_per_epoch endpoint =
        let logged = notices slots_per_epoch endpoint in
        elim (construct_dial_options max_call_recv_msg_size "" grpc_retries dial_interval []) [
          | none ↦ done (logged, no_dial_options)
          | some dial_opts ↦ elim (grpc.dial_context endpoint dial_opts) [
            | none ↦ done (logged, not_dialed)
            | some conn ↦ do
              end ← runner bytes2hex div_slot (grpc.answers conn) (new_client slots_per_epoch)
              done (logged, ran end)
          ]
        ]
