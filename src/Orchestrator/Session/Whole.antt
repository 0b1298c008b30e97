-- ===== src/Orchestrator/Session/Whole.antt =====
-- simple_rpc/main.go: what the clients of a server get before and after it is interrupted.
use eth_research.Base.{◌≡◌, refl, ℕ, List, [], ◌∷◌, Option, none, some, All}
use eth_research.Base.Text.{String, string_eq}
use eth_research.Orchestrator.{
  rpc_api, Rpc, Paths, Context, migrate_flags, endpoint_of, start_server, run_client, ClientEnd,
  not_connected, logged, zero_shard, new_ipc_client,
}
use eth_research.Orchestrator.Reaching.{Reaches, run_client_at}
use eth_research.Orchestrator.Session.{
  ServerCommand, server_context, exit_status, Event, client_runs, interrupt, client_command,
  clients_after, await_abort, session,
}

-- What the clients get after the server has returned.
abbrev refused : List Event → List (ClientEnd × ℕ)
refused [] = []
refused (client_runs c ∷ events) = (not_connected, 1) ∷ refused events
refused (interrupt ∷ events) = refused events

-- What they get of a server that is started, and whether the server returns.
abbrev owed : List Event → List (ClientEnd × ℕ)
owed [] = []
owed (client_runs c ∷ events) = (logged zero_shard, 0) ∷ owed events
owed (interrupt ∷ events) = refused events

abbrev closes : {Net : Type 0} → Net → List Event → Option Net
closes net [] = none
closes net (client_runs c ∷ events) = closes net events
closes net (interrupt ∷ events) = some net

-- A client that runs has this endpoint.
abbrev pub CallsAt : Paths → String → Event → Type 0
CallsAt paths url (client_runs c) = endpoint_of paths (migrate_flags c) ≡ url
CallsAt paths url interrupt = url ≡ url

module _ (paths : Paths) (rpc : Rpc) (close : String → rpc.Net → rpc.Net) where
  clients_after_lem :
      (url : String) (events : List Event) (net : rpc.Net)
      → rpc.dial url net ≡ none
      → All (CallsAt paths url) events
      → clients_after paths rpc events net ≡ refused events
  unfolding clients_after client_command run_client new_ipc_client exit_status
  clients_after_lem url [] net gone at = refl
  clients_after_lem url (client_runs c ∷ events) net gone (here, at) =
      let gone1 : rpc.dial (endpoint_of paths (migrate_flags c)) net ≡ none = rw here gone in
      rw
        (clients_after, client_command, run_client, gone1, clients_after_lem url events net gone at)
        refl
  clients_after_lem url (interrupt ∷ events) net gone (here, at) =
      clients_after_lem url events net gone at

  await_abort_lem :
      Reaches paths rpc
      → (url : String) (net net1 : rpc.Net) → rpc.dial url (close url net1) ≡ none
      → rpc.start_ipc_endpoint url rpc_api net ≡ some net1
      → (events : List Event) → All (CallsAt paths url) events
      → await_abort paths rpc close url events net1
        ≡ record { clients = owed events; closed = closes (close url net1) events }
  unfolding await_abort client_command exit_status
  await_abort_lem reaches url net net1 gone started [] at = refl
  await_abort_lem reaches url net net1 gone started (client_runs c ∷ events) (here, at) =
      let ends = run_client_at paths rpc reaches url (migrate_flags c) net net1 here started in
      rw
        (
          await_abort,
          client_command,
          ends,
          await_abort_lem reaches url net net1 gone started events at,
        )
        refl
  await_abort_lem reaches url net net1 gone started (interrupt ∷ events) (here, at) =
      rw (await_abort, clients_after_lem url events (close url net1) gone at) refl

  -- Where an endpoint that is listened on is connected to and answers calls by its methods, and one
  -- that is closed is not connected to: a server that is started by the action of the app or by its
  -- command waits until the first interrupt and then returns. Every client at its endpoint ends before
  -- that with the shard of a zero parent hash and number 45 and exit status 0, and after that with the
  -- error of the connection and exit status 1.
  pub session_lem :
      Reaches paths rpc
      → ((url : String) (net net1 : rpc.Net)
          → rpc.start_ipc_endpoint url rpc_api net ≡ some net1
          → rpc.dial url (close url net1) ≡ none)
      → (command : ServerCommand) (c : Context) (events : List Event) (net net1 : rpc.Net)
      → All (CallsAt paths (endpoint_of paths (server_context command c))) events
      → start_server paths rpc (server_context command c) net ≡ some net1
      → session paths rpc close command c events net
        ≡ some (record {
          clients = owed events;
          closed = closes (close (endpoint_of paths (server_context command c)) net1) events;
        })
  unfolding session start_server
  session_lem reaches closed command c events net net1 at started =
      let url = endpoint_of paths (server_context command c) in
      rw
        (
          session,
          start_server,
          started,
          await_abort_lem reaches url net net1 (closed url net net1 started) started events at,
        )
        refl
