-- ===== src/Orchestrator/Session.antt =====
-- simple_rpc/main.go: the commands to their end. A server listens until it is interrupted, and clients
-- of the same host run meanwhile and afterwards. Interrupts come after `signal.Notify`.
pub mod Whole
use eth_research.Base.{ℕ, List, [], ◌∷◌, Option, none, some}
use eth_research.Base.Text.{String, string_eq}
use eth_research.Orchestrator.{
  Rpc, Paths, Context, migrate_flags, endpoint_of, start_server, run_client, ClientEnd,
  not_connected, call_failed, logged,
}

-- The two ways to start the server: the action of the app, and its command.
pub data ServerCommand : Type 0 where
  app_action server_start_command : ServerCommand

-- The context that `startServer` has: the action of the app has no `MigrateFlags`.
unfoldable pub server_context : ServerCommand → Context → Context
server_context app_action c = c
server_context server_start_command c = migrate_flags c

-- `main`: the exit status, which is 1 where the action returns an error.
unfoldable pub exit_status : ClientEnd → ℕ
exit_status not_connected = 1
exit_status call_failed = 1
exit_status (logged shard) = 0

-- What happens after the server is started.
pub data Event : Type 0 where
  client_runs : Context → Event
  interrupt : Event

-- How the clients end, each with its exit status, and what is left of the network once the server
-- has returned, where it has. It returns nil, so its exit status is 0.
pub record Session (Net : Type 0) : Type 0 where
  pub clients : List (ClientEnd × ℕ)
  pub closed : Option Net

module _ (paths : Paths) (rpc : Rpc) where
  open rpc use {Net}

  unfoldable pub client_command : Context → Net → ClientEnd × ℕ
  client_command c net =
      let end = run_client paths rpc (migrate_flags c) net in (end, exit_status end)

  -- Clients, where nobody waits for an interrupt.
  unfoldable pub clients_after : List Event → Net → List (ClientEnd × ℕ)
  clients_after [] net = []
  clients_after (client_runs c ∷ events) net = client_command c net ∷ clients_after events net
  clients_after (interrupt ∷ events) net = clients_after events net

  -- `listener.Close()` at an endpoint.
  module _ (close : String → Net → Net) where
    -- `startServer` from `<-abortChan`, with the deferred call, which closes the endpoint.
    unfoldable pub await_abort : String → List Event → Net → Session Net
    await_abort url [] net = record { clients = []; closed = none }
    await_abort url (client_runs c ∷ events) net =
        let rest = await_abort url events net in
        record rest { clients = client_command c net ∷ rest.clients }
    await_abort url (interrupt ∷ events) net = record {
      clients = clients_after events (close url net);
      closed = some (close url net);
    }

    -- `startServer`, with what happens after the server is started; `none` is the fatal error.
    unfoldable pub session : ServerCommand → Context → List Event → Net → Option (Session Net)
    session command c events net = elim (start_server paths rpc (server_context command c) net) [
      | none ↦ none
      | some net1 ↦ some (await_abort (endpoint_of paths (server_context command c)) events net1)
    ]
