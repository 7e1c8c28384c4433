-- ===== src/Config/Sections.antt =====
-- Where in the YAML file the values of a section stand.
use event_stream_core.Common.{◌≡◌, subst, codes}
use event_stream_core.Config.{
  TcpConfig, UdpConfig, FileConfig, Router, RuleEngine, StorageConfig, PythonConfig,
  BroadCastPushConfig, ThreadsPoolConfig, NumaConfig, loaded, Yaml,
}
use event_stream_core.Config.Load.{
  string_at, int_at, flag_at, node_number_at, parse_tcp_config, parse_udp_config, parse_file_config,
  parse_broad_cast_push_config, parse_router, parse_rule_engine, parse_storage, parse_python,
  parse_threads_pool, parse_numa,
}
use event_stream_core.Config.Keys.{
  bound, loaded_same, StringAt, IntAt, FlagAt, NodeNumberAt, string_at-StringAt, int_at-IntAt,
  flag_at-FlagAt, node_number_at-NodeNumberAt,
}

module _ {N : Type 0} (y : Yaml N) where
  abbrev pub TcpConfigAt : N → TcpConfig → Type 0
  TcpConfigAt node c =
      StringAt y node (codes "host") c.host
      × IntAt y node (codes "port") c.port
      × FlagAt y node (codes "enable") c.enable
      × IntAt y node (codes "maxConnections") c.max_connections

  pub parse_tcp_config-TcpConfigAt :
      (node : N) (c : TcpConfig) → parse_tcp_config y node ≡ loaded c → TcpConfigAt node c
  unfolding parse_tcp_config
  parse_tcp_config-TcpConfigAt node c h =
      let (v0, read0, h0) = bound (string_at y node (codes "host")) _ h in
      let (v1, read1, h1) = bound (int_at y node (codes "port")) _ h0 in
      let (v2, read2, h2) = bound (flag_at y node (codes "enable")) _ h1 in
      let (v3, read3, h3) = bound (int_at y node (codes "maxConnections")) _ h2 in
      subst (TcpConfigAt node) (loaded_same h3) (
        string_at-StringAt y node _ _ read0,
        int_at-IntAt y node _ _ read1,
        flag_at-FlagAt y node _ _ read2,
        int_at-IntAt y node _ _ read3,
      )

  abbrev pub UdpConfigAt : N → UdpConfig → Type 0
  UdpConfigAt node c =
      StringAt y node (codes "host") c.host
      × IntAt y node (codes "port") c.port
      × FlagAt y node (codes "enable") c.enable
      × IntAt y node (codes "bufferSize") c.buffer_size

  pub parse_udp_config-UdpConfigAt :
      (node : N) (c : UdpConfig) → parse_udp_config y node ≡ loaded c → UdpConfigAt node c
  unfolding parse_udp_config
  parse_udp_config-UdpConfigAt node c h =
      let (v0, read0, h0) = bound (string_at y node (codes "host")) _ h in
      let (v1, read1, h1) = bound (int_at y node (codes "port")) _ h0 in
      let (v2, read2, h2) = bound (flag_at y node (codes "enable")) _ h1 in
      let (v3, read3, h3) = bound (int_at y node (codes "bufferSize")) _ h2 in
      subst (UdpConfigAt node) (loaded_same h3) (
        string_at-StringAt y node _ _ read0,
        int_at-IntAt y node _ _ read1,
        flag_at-FlagAt y node _ _ read2,
        int_at-IntAt y node _ _ read3,
      )

  abbrev pub FileConfigAt : N → FileConfig → Type 0
  FileConfigAt node c =
      StringAt y node (codes "path") c.path
      × FlagAt y node (codes "enable") c.enable
      × IntAt y node (codes "poll_interval_ms") c.poll_interval_ms

  pub parse_file_config-FileConfigAt :
      (node : N) (c : FileConfig) → parse_file_config y node ≡ loaded c → FileConfigAt node c
  unfolding parse_file_config
  parse_file_config-FileConfigAt node c h =
      let (v0, read0, h0) = bound (string_at y node (codes "path")) _ h in
      let (v1, read1, h1) = bound (flag_at y node (codes "enable")) _ h0 in
      let (v2, read2, h2) = bound (int_at y node (codes "poll_interval_ms")) _ h1 in
      subst (FileConfigAt node) (loaded_same h2) (
        string_at-StringAt y node _ _ read0,
        flag_at-FlagAt y node _ _ read1,
        int_at-IntAt y node _ _ read2,
      )

  abbrev pub BroadCastPushConfigAt : N → BroadCastPushConfig → Type 0
  BroadCastPushConfigAt node c =
      StringAt y node (codes "host") c.host
      × IntAt y node (codes "port") c.port
      × FlagAt y node (codes "enable") c.enable

  pub parse_broad_cast_push_config-BroadCastPushConfigAt :
      (node : N) (c : BroadCastPushConfig)
      → parse_broad_cast_push_config y node ≡ loaded c
      → BroadCastPushConfigAt node c
  unfolding parse_broad_cast_push_config
  parse_broad_cast_push_config-BroadCastPushConfigAt node c h =
      let (v0, read0, h0) = bound (string_at y node (codes "host")) _ h in
      let (v1, read1, h1) = bound (int_at y node (codes "port")) _ h0 in
      let (v2, read2, h2) = bound (flag_at y node (codes "enable")) _ h1 in
      subst (BroadCastPushConfigAt node) (loaded_same h2) (
        string_at-StringAt y node _ _ read0,
        int_at-IntAt y node _ _ read1,
        flag_at-FlagAt y node _ _ read2,
      )

  abbrev pub RouterAt : N → Router → Type 0
  RouterAt node c =
      IntAt y node (codes "shards") c.shards
      × StringAt y node (codes "strategy") c.strategy
      × IntAt y node (codes "buffer_size") c.buffer_size

  pub parse_router-RouterAt :
      (node : N) (c : Router) → parse_router y node ≡ loaded c → RouterAt node c
  unfolding parse_router
  parse_router-RouterAt node c h =
      let (v0, read0, h0) = bound (int_at y node (codes "shards")) _ h in
      let (v1, read1, h1) = bound (string_at y node (codes "strategy")) _ h0 in
      let (v2, read2, h2) = bound (int_at y node (codes "buffer_size")) _ h1 in
      subst (RouterAt node) (loaded_same h2) (
        int_at-IntAt y node _ _ read0,
        string_at-StringAt y node _ _ read1,
        int_at-IntAt y node _ _ read2,
      )

  abbrev pub RuleEngineAt : N → RuleEngine → Type 0
  RuleEngineAt node c =
      FlagAt y node (codes "enable_cache") c.enable_cache
      × StringAt y node (codes "rules_file") c.rules_file
      × IntAt y node (codes "threads") c.threads
      × IntAt y node (codes "cache_size") c.cache_size

  pub parse_rule_engine-RuleEngineAt :
      (node : N) (c : RuleEngine) → parse_rule_engine y node ≡ loaded c → RuleEngineAt node c
  unfolding parse_rule_engine
  parse_rule_engine-RuleEngineAt node c h =
      let (v0, read0, h0) = bound (flag_at y node (codes "enable_cache")) _ h in
      let (v1, read1, h1) = bound (string_at y node (codes "rules_file")) _ h0 in
      let (v2, read2, h2) = bound (int_at y node (codes "threads")) _ h1 in
      let (v3, read3, h3) = bound (int_at y node (codes "cache_size")) _ h2 in
      subst (RuleEngineAt node) (loaded_same h3) (
        flag_at-FlagAt y node _ _ read0,
        string_at-StringAt y node _ _ read1,
        int_at-IntAt y node _ _ read2,
        int_at-IntAt y node _ _ read3,
      )

  abbrev pub StorageConfigAt : N → StorageConfig → Type 0
  StorageConfigAt node c =
      StringAt y node (codes "backend") c.backend × StringAt y node (codes "sqlite_path") c.path

  pub parse_storage-StorageConfigAt :
      (node : N) (c : StorageConfig) → parse_storage y node ≡ loaded c → StorageConfigAt node c
  unfolding parse_storage
  parse_storage-StorageConfigAt node c h =
      let (v0, read0, h0) = bound (string_at y node (codes "backend")) _ h in
      let (v1, read1, h1) = bound (string_at y node (codes "sqlite_path")) _ h0 in
      subst (StorageConfigAt node) (loaded_same h1)
        (string_at-StringAt y node _ _ read0, string_at-StringAt y node _ _ read1)

  abbrev pub PythonConfigAt : N → PythonConfig → Type 0
  PythonConfigAt node c =
      FlagAt y node (codes "enable") c.enable × StringAt y node (codes "script_path") c.script_path

  pub parse_python-PythonConfigAt :
      (node : N) (c : PythonConfig) → parse_python y node ≡ loaded c → PythonConfigAt node c
  unfolding parse_python
  parse_python-PythonConfigAt node c h =
      let (v0, read0, h0) = bound (flag_at y node (codes "enable")) _ h in
      let (v1, read1, h1) = bound (string_at y node (codes "script_path")) _ h0 in
      subst (PythonConfigAt node) (loaded_same h1)
        (flag_at-FlagAt y node _ _ read0, string_at-StringAt y node _ _ read1)

  abbrev pub ThreadsPoolConfigAt : N → ThreadsPoolConfig → Type 0
  ThreadsPoolConfigAt node c =
      IntAt y node (codes "min_threads") c.min_threads
      × IntAt y node (codes "max_threads") c.max_threads

  pub parse_threads_pool-ThreadsPoolConfigAt :
      (node : N) (c : ThreadsPoolConfig)
      → parse_threads_pool y node ≡ loaded c
      → ThreadsPoolConfigAt node c
  unfolding parse_threads_pool
  parse_threads_pool-ThreadsPoolConfigAt node c h =
      let (v0, read0, h0) = bound (int_at y node (codes "min_threads")) _ h in
      let (v1, read1, h1) = bound (int_at y node (codes "max_threads")) _ h0 in
      subst (ThreadsPoolConfigAt node) (loaded_same h1)
        (int_at-IntAt y node _ _ read0, int_at-IntAt y node _ _ read1)

  abbrev pub NumaConfigAt : N → NumaConfig → Type 0
  NumaConfigAt node c =
      FlagAt y node (codes "enable") c.enable
      × NodeNumberAt y node (codes "dispatcher_node") c.dispatcher_node
      × NodeNumberAt y node (codes "ingest_node") c.ingest_node
      × NodeNumberAt y node (codes "realtime_proc_node") c.realtime_proc_node
      × NodeNumberAt y node (codes "transactional_proc_node") c.transactional_proc_node
      × NodeNumberAt y node (codes "batch_proc_node") c.batch_proc_node

  pub parse_numa-NumaConfigAt :
      (node : N) (c : NumaConfig) → parse_numa y node ≡ loaded c → NumaConfigAt node c
  unfolding parse_numa
  parse_numa-NumaConfigAt node c h =
      let (v0, read0, h0) = bound (flag_at y node (codes "enable")) _ h in
      let (v1, read1, h1) = bound (node_number_at y node (codes "dispatcher_node")) _ h0 in
      let (v2, read2, h2) = bound (node_number_at y node (codes "ingest_node")) _ h1 in
      let (v3, read3, h3) = bound (node_number_at y node (codes "realtime_proc_node")) _ h2 in
      let (v4, read4, h4) = bound (node_number_at y node (codes "transactional_proc_node")) _ h3 in
      let (v5, read5, h5) = bound (node_number_at y node (codes "batch_proc_node")) _ h4 in
      subst (NumaConfigAt node) (loaded_same h5) (
        flag_at-FlagAt y node _ _ read0,
        node_number_at-NodeNumberAt y node _ _ read1,
        node_number_at-NodeNumberAt y node _ _ read2,
        node_number_at-NodeNumberAt y node _ _ read3,
        node_number_at-NodeNumberAt y node _ _ read4,
        node_number_at-NodeNumberAt y node _ _ read5,
      )
