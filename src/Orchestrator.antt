-- ===== src/Orchestrator.antt =====
-- simple_rpc: the server and the client of simple_rpc/main.go, with api/api.go, ipc-client and the
-- flags of utils. The rpc package, adapted from go-ethereum, and urfave/cli are parameters.
pub mod Flagged
pub mod Reaching
pub mod Session
mod Examples
use eth_research.Base.{
  ℕ, List, [], ◌∷◌, Bool, true, false, Option, none, some, if◌then◌else◌, replicate,
}
use eth_research.Base.Dict.{Dict, lookup_or, insert}
use eth_research.Base.Text.{String, str_eq, string_eq, starts_with, concat}

-- `ExtraData` and `ShardInfo`, with hashes and the address as bytes.
pub record ExtraData : Type 0 where
  pub slot : ℕ
  pub epoch : ℕ

pub record ShardInfo : Type 0 where
  pub parent_hash : List ℕ
  pub coinbase : List ℕ
  pub root : List ℕ
  pub tx_hash : List ℕ
  pub receipt_hash : List ℕ
  pub number : ℕ

-- `OrchestratorApi`
pub record OrchestratorApi : Type 0 where
  pub version : ℕ
  pub name : String

unfoldable pub new_orchestrator_api : ℕ → String → OrchestratorApi
new_orchestrator_api version name = record { version = version; name = name }

abbrev pub zero_shard : ShardInfo
zero_shard = record {
  parent_hash = replicate 32 0;
  coinbase = replicate 20 0;
  root = replicate 32 0;
  tx_hash = replicate 32 0;
  receipt_hash = replicate 32 0;
  number = 45;
}

unfoldable pub produce_catalyst_block : OrchestratorApi → ExtraData → ShardInfo
produce_catalyst_block orc_api extra = zero_shard

unfoldable pub get_shard_info : OrchestratorApi → ShardInfo
get_shard_info orc_api = zero_shard

-- `rpc.API`, with the methods of the service that take extra data, by the names that package rpc
-- gives them.
pub record RpcApi : Type 0 where
  pub namespace : String
  pub version : String
  pub is_public : Bool
  pub methods : Dict String (ExtraData → ShardInfo)

abbrev pub rpc_api : RpcApi
rpc_api = record {
  namespace = "orchestrator";
  version = "1.0";
  is_public = true;
  methods =
      ("produceCatalystBlock", produce_catalyst_block (new_orchestrator_api 1 "orchestratorApi"))
      ∷ [];
}

-- What package rpc does of this: listening at an endpoint, connecting to it, and a call by name.
pub record Rpc : Type 1 where
  pub Net : Type 0
  pub Connection : Type 0
  pub start_ipc_endpoint : String → RpcApi → Net → Option Net
  pub dial : String → Net → Option Connection
  pub call : Connection → String → ExtraData → Option ShardInfo

-- How `client` ends.
pub data ClientEnd : Type 0 where
  not_connected call_failed : ClientEnd
  logged : ShardInfo → ClientEnd

-- path/filepath, the temporary directory, and whether the host runs Windows.
pub record Paths : Type 0 where
  pub is_windows : Bool
  pub join : String → String → String
  pub base : String → String
  pub temp_dir : String

-- A context of urfave/cli: the flags that a command is given, and the global ones.
pub record Context : Type 0 where
  pub flag_names : List String
  pub is_set : String → Bool
  pub value : String → String
  pub globals : Dict String String

abbrev pub global_string : String → Context → String
global_string name c = lookup_or "" name c.globals

-- The loop of `MigrateFlags`, and the context that the action then has.
module _ (c : Context) where
  unfoldable pub migrate_each : List String → Dict String String → Dict String String
  migrate_each [] globals = globals
  migrate_each (name ∷ rest) globals =
      migrate_each rest (if c.is_set name then insert name (c.value name) globals else globals)

unfoldable pub migrate_flags : Context → Context
migrate_flags c = record c { globals = migrate_each c c.flag_names c.globals }

module _ (paths : Paths) where
  open paths use {join}

  unfoldable pub ipc_endpoint : String → String → String
  ipc_endpoint ipc_path datadir =
      if paths.is_windows
      then (if starts_with ipc_path "\\\\.\\pipe\\"
          then ipc_path
          else concat "\\\\.\\pipe\\" ipc_path)
      else if str_eq (paths.base ipc_path) ipc_path
      then (if str_eq datadir "" then join paths.temp_dir ipc_path else join datadir ipc_path)
      else ipc_path

  -- The endpoint that `startServer` and `client` make of the flags.
  unfoldable pub endpoint_of : Context → String
  endpoint_of c =
      ipc_endpoint (join (global_string "ipcpath" c) "orchestrator.ipc") (global_string "cfgdir" c)

  module _ (rpc : Rpc) where
    open rpc use {Net, Connection}

    -- `startServer`, up to its waiting for an interrupt; `none` is the fatal error.
    unfoldable pub start_server : Context → Net → Option Net
    start_server c net = rpc.start_ipc_endpoint (endpoint_of c) rpc_api net

    -- `IpcClient`, of which its flags are only set.
    unfoldable pub new_ipc_client : String → Net → Option Connection
    new_ipc_client endpoint net = rpc.dial endpoint net

    -- `IpcClient.ProduceCatalystBlock`
    unfoldable pub call_produce : Connection → ExtraData → Option ShardInfo
    call_produce conn extra = rpc.call conn "orchestrator_produceCatalystBlock" extra

    abbrev pub client_data : ExtraData
    client_data = record { slot = 4998; epoch = 454 }

    -- `client`: the shard information that it logs, or which of its two errors it returns.
    unfoldable pub run_client : Context → Net → ClientEnd
    run_client c net = elim (new_ipc_client (endpoint_of c) net) [
      | none ↦ not_connected
      | some conn ↦ elim (call_produce conn client_data) [
        | none ↦ call_failed
        | some shard_info ↦ logged shard_info
      ]
    ]
