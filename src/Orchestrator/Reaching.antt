-- ===== src/Orchestrator/Reaching.antt =====
-- simple_rpc: the client reaches the server that was started with the same flags.
use eth_research.Base.{◌≡◌, refl, ap, ◌∙◌, sym, some}
use eth_research.Base.Dict.{lookup}
use eth_research.Base.Text.{String, string_eq, concat}
use eth_research.Orchestrator.{
  ExtraData, ShardInfo, rpc_api, Rpc, Paths, Context, global_string, migrate_flags, ipc_endpoint,
  endpoint_of, start_server, new_ipc_client, call_produce, run_client, logged, zero_shard,
  produce_catalyst_block,
}

module _ (paths : Paths) (rpc : Rpc) where
  endpoint_of-same :
      (c1 c2 : Context)
      → global_string "ipcpath" c1 ≡ global_string "ipcpath" c2
      → global_string "cfgdir" c1 ≡ global_string "cfgdir" c2
      → endpoint_of paths c1 ≡ endpoint_of paths c2
  unfolding endpoint_of
  endpoint_of-same c1 c2 same_path same_dir =
      ap (λ p. ipc_endpoint paths (paths.join p "orchestrator.ipc") (global_string "cfgdir" c1))
        same_path
      ∙ ap (ipc_endpoint paths (paths.join (global_string "ipcpath" c2) "orchestrator.ipc"))
          same_dir

  -- What package rpc does of an endpoint that is listened on: it is connected to, and a call through
  -- the connection is answered by the method of that name in its namespace.
  abbrev pub Reaches : Type 0
  Reaches =
      (e : String) (net net1 : rpc.Net)
      → rpc.start_ipc_endpoint e rpc_api net ≡ some net1
      → (conn : rpc.Connection) × (rpc.dial e net1 ≡ some conn)
        × ((name : String) (f : ExtraData → ShardInfo) (extra : ExtraData)
            → lookup name rpc_api.methods ≡ some f
            → rpc.call conn (concat rpc_api.namespace (concat "_" name)) extra ≡ some (f extra))

  pub run_client_at :
      Reaches
      → (url : String) (client : Context) (net net1 : rpc.Net) → endpoint_of paths client ≡ url
      → rpc.start_ipc_endpoint url rpc_api net ≡ some net1
      → run_client paths rpc client net1 ≡ logged zero_shard
  unfolding run_client new_ipc_client call_produce produce_catalyst_block lookup concat
  run_client_at reaches url client net net1 same started =
      let (conn, dialed, answers) = reaches url net net1 started in
      let dialed1 : rpc.dial (endpoint_of paths client) net1 ≡ some conn = rw same dialed in
      rw (run_client, dialed1, answers "produceCatalystBlock" _ _ refl) refl

  -- Where an endpoint that is listened on is connected to, and a call through it is answered by the
  -- method of that name in its namespace: once the server is started, the client that has the same
  -- path and directory after `MigrateFlags` ends without an error, and logs a zero parent hash and
  -- number 45.
  pub run_client_reaches :
      Reaches
      → (server client : Context) (net net1 : rpc.Net)
      → global_string "ipcpath" (migrate_flags server)
        ≡ global_string "ipcpath" (migrate_flags client)
      → global_string "cfgdir" (migrate_flags server)
        ≡ global_string "cfgdir" (migrate_flags client)
      → start_server paths rpc (migrate_flags server) net ≡ some net1
      → run_client paths rpc (migrate_flags client) net1 ≡ logged zero_shard
  unfolding start_server
  run_client_reaches reaches server client net net1 same_path same_dir started =
      let same =
        endpoint_of-same (migrate_flags server) (migrate_flags client) same_path same_dir in
      run_client_at reaches _ (migrate_flags client) net net1 (sym same) started
