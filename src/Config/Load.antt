-- ===== src/Config/Load.antt =====
-- `loadConfig` and the functions that it parses the sections with.
use event_stream_core.Common.{Bool, false, not, Option, List, [], ◌∷◌, if◌then◌else◌, Bytes, codes}
use event_stream_core.Config.{
  ℤ, pos, negsuc, TcpConfig, UdpConfig, FileConfig, Router, RuleEngine, StorageConfig, PythonConfig,
  BroadCastPushConfig, ThreadsPoolConfig, NumaConfig, AppConfiguration, file_not_found, missing_key,
  Loading, loaded, ◌>>=◌, ◌>>◌, throw_if, or_throw, Yaml, validate,
}

module _ {N : Type 0} (y : Yaml N) where
  open y use {child, is_defined, as_string, as_int, as_bool_or, as_int_or, elements}

  -- `node[key].as<T>()` for the three types.
  unfoldable pub string_at : N → Bytes → Loading Bytes
  string_at node key = or_throw (child node key) >>= λ n. or_throw (as_string n)

  unfoldable pub int_at : N → Bytes → Loading ℤ
  int_at node key = or_throw (child node key) >>= λ n. or_throw (as_int n)

  unfoldable pub flag_at : N → Bytes → Loading Bool
  flag_at node key = or_throw (child node key) >>= λ n. loaded (as_bool_or n false)

  unfoldable pub node_number_at : N → Bytes → Loading ℤ
  node_number_at node key = or_throw (child node key) >>= λ n. loaded (as_int_or n (negsuc 0))

  -- `ValidateNodeExists`.
  unfoldable pub validate_node_exists : N → Bytes → Loading Unit
  validate_node_exists node key =
      or_throw (child node key) >>= λ n. throw_if (not (is_defined n)) (missing_key key)

  unfoldable pub parse_tcp_config : N → Loading TcpConfig
  unfolding string_at int_at flag_at
  parse_tcp_config node = do
    host ← string_at node (codes "host")
    port ← int_at node (codes "port")
    enable ← flag_at node (codes "enable")
    max_connections ← int_at node (codes "maxConnections")
    loaded record { host = host; port = port; enable = enable; max_connections = max_connections }

  unfoldable pub parse_udp_config : N → Loading UdpConfig
  unfolding string_at int_at flag_at
  parse_udp_config node = do
    host ← string_at node (codes "host")
    port ← int_at node (codes "port")
    enable ← flag_at node (codes "enable")
    buffer_size ← int_at node (codes "bufferSize")
    loaded record { host = host; port = port; enable = enable; buffer_size = buffer_size }

  unfoldable pub parse_file_config : N → Loading FileConfig
  unfolding string_at int_at flag_at
  parse_file_config node = do
    path ← string_at node (codes "path")
    enable ← flag_at node (codes "enable")
    poll_interval_ms ← int_at node (codes "poll_interval_ms")
    loaded record { path = path; enable = enable; poll_interval_ms = poll_interval_ms }

  unfoldable pub parse_broad_cast_push_config : N → Loading BroadCastPushConfig
  unfolding string_at int_at flag_at
  parse_broad_cast_push_config node = do
    host ← string_at node (codes "host")
    port ← int_at node (codes "port")
    enable ← flag_at node (codes "enable")
    loaded record { host = host; port = port; enable = enable }

  unfoldable pub parse_router : N → Loading Router
  parse_router node = do
    shards ← int_at node (codes "shards")
    strategy ← string_at node (codes "strategy")
    buffer_size ← int_at node (codes "buffer_size")
    loaded record { shards = shards; strategy = strategy; buffer_size = buffer_size }

  unfoldable pub parse_rule_engine : N → Loading RuleEngine
  parse_rule_engine node = do
    enable_cache ← flag_at node (codes "enable_cache")
    rules_file ← string_at node (codes "rules_file")
    threads ← int_at node (codes "threads")
    cache_size ← int_at node (codes "cache_size")
    loaded record {
      enable_cache = enable_cache;
      rules_file = rules_file;
      threads = threads;
      cache_size = cache_size;
    }

  unfoldable pub parse_storage : N → Loading StorageConfig
  parse_storage node = do
    backend ← string_at node (codes "backend")
    path ← string_at node (codes "sqlite_path")
    loaded record { backend = backend; path = path }

  unfoldable pub parse_python : N → Loading PythonConfig
  parse_python node = do
    enable ← flag_at node (codes "enable")
    script_path ← string_at node (codes "script_path")
    loaded record { enable = enable; script_path = script_path }

  -- The section `key` of `node`, which must be there.
  abbrev pub section : N → Bytes → Loading N
  section node key = do validate_node_exists node key; or_throw (child node key)

  unfoldable pub plugin_names : List N → Loading (List Bytes)
  plugin_names [] = loaded []
  plugin_names (n ∷ ns) =
      or_throw (as_string n) >>= λ name. plugin_names ns >>= λ names. loaded (name ∷ names)

  abbrev pub when_defined : {A : Type 0} → N → A → (N → Loading A) → Loading A
  when_defined node default parse = if is_defined node then parse node else loaded default

  unfoldable pub parse_plugins : N → Loading (List Bytes)
  parse_plugins root = do
    plugins ← or_throw (child root (codes "plugins"))
    when_defined plugins [] (λ node. or_throw (child node (codes "load")) >>= λ loads.
        when_defined loads [] (λ l. plugin_names (elements l)))

  unfoldable pub parse_threads_pool : N → Loading ThreadsPoolConfig
  parse_threads_pool node = do
    min_threads ← int_at node (codes "min_threads")
    max_threads ← int_at node (codes "max_threads")
    loaded record { min_threads = min_threads; max_threads = max_threads }

  unfoldable pub parse_numa : N → Loading NumaConfig
  parse_numa node = do
    enable ← flag_at node (codes "enable")
    dispatcher_node ← node_number_at node (codes "dispatcher_node")
    ingest_node ← node_number_at node (codes "ingest_node")
    realtime_proc_node ← node_number_at node (codes "realtime_proc_node")
    transactional_proc_node ← node_number_at node (codes "transactional_proc_node")
    batch_proc_node ← node_number_at node (codes "batch_proc_node")
    loaded record {
      enable = enable;
      dispatcher_node = dispatcher_node;
      ingest_node = ingest_node;
      realtime_proc_node = realtime_proc_node;
      transactional_proc_node = transactional_proc_node;
      batch_proc_node = batch_proc_node;
    }

  abbrev pub no_numa : NumaConfig
  no_numa = record {
    enable = false;
    dispatcher_node = negsuc 0;
    ingest_node = negsuc 0;
    realtime_proc_node = negsuc 0;
    transactional_proc_node = negsuc 0;
    batch_proc_node = negsuc 0;
  }

  unfoldable pub read_names : N → Loading (Bytes × Bytes)
  read_names root = do
    validate_node_exists root (codes "app_name")
    validate_node_exists root (codes "version")
    app_name ← string_at root (codes "app_name")
    version ← string_at root (codes "version")
    loaded (app_name, version)

  unfoldable pub read_ingestion : N → Loading (TcpConfig × UdpConfig × FileConfig)
  read_ingestion root = do
    ingestion ← section root (codes "ingestion")
    tcp ← or_throw (child ingestion (codes "tcp"))
    tcp_config ← parse_tcp_config tcp
    udp ← or_throw (child ingestion (codes "udp"))
    udp_config ← parse_udp_config udp
    file ← or_throw (child ingestion (codes "file"))
    file_config ← parse_file_config file
    loaded (tcp_config, udp_config, file_config)

  unfoldable pub read_broadcast : N → Loading (BroadCastPushConfig × BroadCastPushConfig)
  read_broadcast root = do
    broadcast ← section root (codes "broadcast")
    validate_node_exists broadcast (codes "tcp_push")
    validate_node_exists broadcast (codes "websocket_push")
    tcp_push_node ← or_throw (child broadcast (codes "tcp_push"))
    tcp_push ← parse_broad_cast_push_config tcp_push_node
    websocket_node ← or_throw (child broadcast (codes "websocket_push"))
    websocket_push ← parse_broad_cast_push_config websocket_node
    loaded (tcp_push, websocket_push)

  abbrev pub default_threads : ThreadsPoolConfig
  default_threads = record { min_threads = pos 2; max_threads = pos 8 }

  -- The sections in the order in which they are read, up to the validations.
  unfoldable pub read_config : N → Loading AppConfiguration
  read_config root = do
    names ← read_names root
    ingestion ← read_ingestion root
    router ← section root (codes "router") >>= parse_router
    rule_engine ← section root (codes "rule_engine") >>= parse_rule_engine
    storage ← section root (codes "storage") >>= parse_storage
    python ← section root (codes "python_integration") >>= parse_python
    broadcast ← read_broadcast root
    plugin_list ← parse_plugins root
    thread_pool ← or_throw (child root (codes "Threads_pool")) >>= λ threads.
        when_defined threads default_threads parse_threads_pool
    numa ← or_throw (child root (codes "numa")) >>= λ node. when_defined node no_numa parse_numa
    loaded record {
      app_name = names.0;
      version = names.1;
      tcp_config = ingestion.0;
      udp_config = ingestion.1;
      file_config = ingestion.2;
      router = router;
      rule_engine = rule_engine;
      storage = storage;
      python = python;
      tcp_push = broadcast.0;
      websocket_push = broadcast.1;
      plugin_list = plugin_list;
      thread_pool = thread_pool;
      numa = numa;
    }

  -- `loadConfig`; `root` is what the library made of the file, and throws if it is none.
  unfoldable pub load_config : Bool → Option N → Loading AppConfiguration
  load_config exists root = do
    throw_if (not exists) file_not_found
    node ← or_throw root
    config ← read_config node
    validate config
