-- ===== src/Orchestrator/Examples.antt =====
-- A server and a client of simple_rpc on a small network.
use mathlib.Core.Path.{subst}
use eth_research.Base.{
  ◌≡◌, refl, ◌∙◌, sym, ap, inl, inr, [], ◌∷◌, Bool, true, false, Option, none, some, if◌then◌else◌,
  arith, Bool-cases,
}
use eth_research.Base.Dict.{Dict, lookup, insert, lookup-insert}
use eth_research.Base.Text.{String, str_eq, str_eq_iff, string_eq, concat}
use eth_research.Orchestrator.{
  ExtraData, ShardInfo, RpcApi, rpc_api, Rpc, Paths, Context, migrate_flags, endpoint_of,
  start_server, not_connected, logged, zero_shard, ipc_endpoint, migrate_each,
}
use eth_research.Orchestrator.Session.{
  server_context, server_start_command, client_runs, interrupt, session,
}
use eth_research.Orchestrator.Session.Whole.{session_lem}

abbrev applied : ExtraData → Option (ExtraData → ShardInfo) → Option ShardInfo
applied extra none = none
applied extra (some f) = some (f extra)

-- Endpoints with what listens there; a connection is the api.
abbrev small_call : RpcApi → String → ExtraData → Option ShardInfo
small_call api name extra =
    if str_eq name "orchestrator_produceCatalystBlock"
    then applied extra (lookup "produceCatalystBlock" api.methods)
    else none

abbrev small_rpc : Rpc
small_rpc = record {
  Net = Dict String RpcApi;
  Connection = RpcApi;
  start_ipc_endpoint = λ e api net. some (insert e api net);
  dial = λ e net. lookup e net;
  call = small_call;
}

abbrev small_paths : Paths
small_paths = record {
  is_windows = false;
  join = λ p q. if str_eq p "" then q else concat p (concat "/" q);
  base = λ p. "orchestrator.ipc";
  temp_dir = "/tmp";
}

-- A command that is given the directory, with the default of the path.
abbrev given : Context
given = record {
  flag_names = "cfgdir" ∷ [];
  is_set = λ name. true;
  value = λ name. "/data";
  globals = [];
}

endpoint : endpoint_of small_paths (migrate_flags given) ≡ "/data/orchestrator.ipc"
unfolding endpoint_of ipc_endpoint lookup migrate_flags migrate_each insert concat
endpoint = refl

small_method :
    (name : String) (f : ExtraData → ShardInfo) (extra : ExtraData)
    → lookup name rpc_api.methods ≡ some f
    → small_call rpc_api (concat rpc_api.namespace (concat "_" name)) extra ≡ some (f extra)
unfolding lookup concat
small_method name f extra e = elim (Bool-cases (str_eq name "produceCatalystBlock")) [
  | inl same ↦
      let eq : name ≡ "produceCatalystBlock" = (str_eq_iff name "produceCatalystBlock").0 same in
      let e1 : lookup "produceCatalystBlock" rpc_api.methods ≡ some f =
        subst (λ n. lookup n rpc_api.methods ≡ some f) eq e in
      subst
        (λ n. small_call rpc_api (concat rpc_api.namespace (concat "_" n)) extra ≡ some (f extra))
        (sym eq) (ap (applied extra) e1)
  | inr other ↦ ground (arith, e, other)
]

small_reaches :
    (e : String) (net net1 : Dict String RpcApi)
    → small_rpc.start_ipc_endpoint e rpc_api net ≡ some net1
    → (conn : RpcApi) × (small_rpc.dial e net1 ≡ some conn)
      × ((name : String) (f : ExtraData → ShardInfo) (extra : ExtraData)
          → lookup name rpc_api.methods ≡ some f
          → small_rpc.call conn (concat rpc_api.namespace (concat "_" name)) extra ≡ some (f extra))
small_reaches e net net1 started =
    let is : net1 ≡ insert e rpc_api net = cc in
    (
      rpc_api,
      subst (λ n. lookup e n ≡ some rpc_api) (sym is)
          (lookup-insert e e rpc_api net
            ∙ ap (λ (b : Bool). if b then some rpc_api else lookup e net)
                ((str_eq_iff e e).1 refl)),
      small_method,
    )

abbrev running : Dict String RpcApi
running = insert "/data/orchestrator.ipc" rpc_api []

abbrev small_close : String → Dict String RpcApi → Dict String RpcApi
small_close url [] = []
small_close url ((e, api) ∷ net) =
    let rest = small_close url net in if str_eq url e then rest else (e, api) ∷ rest

small_close-lookup :
    (url : String) (net : Dict String RpcApi) → lookup url (small_close url net) ≡ none
unfolding lookup
small_close-lookup url [] = refl
small_close-lookup url ((e, api) ∷ net) = elim (Bool-cases (str_eq url e)) [
  | inl same ↦ rw (same, small_close-lookup url net) refl
  | inr other ↦ rw (other, other, small_close-lookup url net) refl
]

-- Two clients, an interrupt between them.
session_lem_example :
    session small_paths small_rpc small_close server_start_command given
      (client_runs given ∷ interrupt ∷ client_runs given ∷ [])
      []
    ≡ some (record { clients = (logged zero_shard, 0) ∷ (not_connected, 1) ∷ []; closed = some [] })
unfolding start_server server_context endpoint_of ipc_endpoint lookup migrate_flags migrate_each
    insert concat
session_lem_example =
    session_lem small_paths small_rpc small_close small_reaches
      (λ url net net1 started. small_close-lookup url net1) server_start_command given
      (client_runs given ∷ interrupt ∷ client_runs given ∷ []) [] running (refl, (refl, (refl, tt)))
      refl

-- A command that is given a name for the endpoint beside the directory.
abbrev named : Context
named = record {
  flag_names = "ipcpath" ∷ "cfgdir" ∷ [];
  is_set = λ name. true;
  value = λ name. if str_eq name "ipcpath" then "x.ipc" else "/data";
  globals = [];
}

named_endpoint : endpoint_of small_paths (migrate_flags named) ≡ "x.ipc/orchestrator.ipc"
unfolding endpoint_of ipc_endpoint lookup migrate_flags migrate_each insert concat
named_endpoint = refl
