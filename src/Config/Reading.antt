-- ===== src/Config/Reading.antt =====
-- Where in the YAML file the values of a configuration stand.
use event_stream_core.Common.{◌≡◌, subst, some, Bytes, codes}
use event_stream_core.Config.{
  pos, TcpConfig, UdpConfig, FileConfig, BroadCastPushConfig, AppConfiguration, Loading, loaded,
  or_throw, ◌>>=◌, Yaml,
}
use event_stream_core.Config.Load.{
  string_at, validate_node_exists, parse_tcp_config, parse_udp_config, parse_file_config,
  parse_broad_cast_push_config, parse_router, parse_rule_engine, parse_storage, parse_python,
  section, when_defined, parse_plugins, parse_threads_pool, parse_numa, no_numa, read_names,
  read_ingestion, read_broadcast, default_threads, read_config,
}
use event_stream_core.Config.Keys.{
  bound, loaded_same, not_thrown, StringAt, IsThere, string_at-StringAt,
  validate_node_exists-IsThere,
}
use event_stream_core.Config.Sections.{
  TcpConfigAt, parse_tcp_config-TcpConfigAt, UdpConfigAt, parse_udp_config-UdpConfigAt,
  FileConfigAt, parse_file_config-FileConfigAt, BroadCastPushConfigAt,
  parse_broad_cast_push_config-BroadCastPushConfigAt, RouterAt, parse_router-RouterAt, RuleEngineAt,
  parse_rule_engine-RuleEngineAt, StorageConfigAt, parse_storage-StorageConfigAt, PythonConfigAt,
  parse_python-PythonConfigAt, ThreadsPoolConfigAt, parse_threads_pool-ThreadsPoolConfigAt,
  NumaConfigAt, parse_numa-NumaConfigAt,
}
use event_stream_core.Config.Parts.{
  SectionAt, section-SectionAt, PartAt, when_defined-PartAt, PluginsAt, parse_plugins-PluginsAt,
}

module _ {N : Type 0} (y : Yaml N) where
  open y use {child}

  abbrev pub NamesOf : N → Bytes × Bytes → Type 0
  NamesOf root (app_name, version) =
      IsThere y root (codes "app_name")
      × IsThere y root (codes "version")
      × StringAt y root (codes "app_name") app_name
      × StringAt y root (codes "version") version

  read_names-NamesOf :
      (root : N) (v : Bytes × Bytes) → read_names y root ≡ loaded v → NamesOf root v
  unfolding read_names
  read_names-NamesOf root v h =
      let (u0, r_u0, h0) = bound (validate_node_exists y root (codes "app_name")) _ h in
      let (u1, r_u1, h1) = bound (validate_node_exists y root (codes "version")) _ h0 in
      let (name, r_name, h2) = bound (string_at y root (codes "app_name")) _ h1 in
      let (version, r_version, h3) = bound (string_at y root (codes "version")) _ h2 in
      subst (NamesOf root) (loaded_same h3) (
        validate_node_exists-IsThere y root (codes "app_name") u0 r_u0,
        validate_node_exists-IsThere y root (codes "version") u1 r_u1,
        string_at-StringAt y root (codes "app_name") name r_name,
        string_at-StringAt y root (codes "version") version r_version,
      )

  abbrev pub IngestionOf : N → TcpConfig × UdpConfig × FileConfig → Type 0
  IngestionOf root (tcp_config, udp_config, file_config) =
      (n : N) × SectionAt y root (codes "ingestion") n
      × ((t : N) × (child n (codes "tcp") ≡ some t) × TcpConfigAt y t tcp_config)
      × ((t : N) × (child n (codes "udp") ≡ some t) × UdpConfigAt y t udp_config)
      × ((t : N) × (child n (codes "file") ≡ some t) × FileConfigAt y t file_config)

  read_ingestion-IngestionOf :
      (root : N) (v : TcpConfig × UdpConfig × FileConfig)
      → read_ingestion y root ≡ loaded v
      → IngestionOf root v
  unfolding read_ingestion
  read_ingestion-IngestionOf root v h =
      let (ingestion, r_ingestion, h0) = bound (section y root (codes "ingestion")) _ h in
      let (tcp, r_tcp, h1) = bound (or_throw (child ingestion (codes "tcp"))) _ h0 in
      let (tcp_config, r_tcp_config, h2) = bound (parse_tcp_config y tcp) _ h1 in
      let (udp, r_udp, h3) = bound (or_throw (child ingestion (codes "udp"))) _ h2 in
      let (udp_config, r_udp_config, h4) = bound (parse_udp_config y udp) _ h3 in
      let (file, r_file, h5) = bound (or_throw (child ingestion (codes "file"))) _ h4 in
      let (file_config, r_file_config, h6) = bound (parse_file_config y file) _ h5 in
      subst (IngestionOf root) (loaded_same h6) (
        ingestion,
        section-SectionAt y root (codes "ingestion") ingestion r_ingestion,
        (tcp, not_thrown _ r_tcp, parse_tcp_config-TcpConfigAt y tcp tcp_config r_tcp_config),
        (udp, not_thrown _ r_udp, parse_udp_config-UdpConfigAt y udp udp_config r_udp_config),
        (
          file,
          not_thrown _ r_file,
          parse_file_config-FileConfigAt y file file_config r_file_config,
        ),
      )

  abbrev pub BroadcastOf : N → BroadCastPushConfig × BroadCastPushConfig → Type 0
  BroadcastOf root (tcp_push, websocket_push) =
      (n : N) × SectionAt y root (codes "broadcast") n
      × IsThere y n (codes "tcp_push")
      × IsThere y n (codes "websocket_push")
      × ((t : N) × (child n (codes "tcp_push") ≡ some t) × BroadCastPushConfigAt y t tcp_push)
      × ((t : N) × (child n (codes "websocket_push") ≡ some t)
          × BroadCastPushConfigAt y t websocket_push)

  read_broadcast-BroadcastOf :
      (root : N) (v : BroadCastPushConfig × BroadCastPushConfig)
      → read_broadcast y root ≡ loaded v
      → BroadcastOf root v
  unfolding read_broadcast
  read_broadcast-BroadcastOf root v h =
      let (n, r_n, h0) = bound (section y root (codes "broadcast")) _ h in
      let (u2, r_u2, h1) = bound (validate_node_exists y n (codes "tcp_push")) _ h0 in
      let (u3, r_u3, h2) = bound (validate_node_exists y n (codes "websocket_push")) _ h1 in
      let (t, r_t, h3) = bound (or_throw (child n (codes "tcp_push"))) _ h2 in
      let (tcp_push, r_tcp_push, h4) = bound (parse_broad_cast_push_config y t) _ h3 in
      let (w, r_w, h5) = bound (or_throw (child n (codes "websocket_push"))) _ h4 in
      let (websocket_push, r_websocket_push, h6) = bound (parse_broad_cast_push_config y w) _ h5 in
      subst (BroadcastOf root) (loaded_same h6) (
        n,
        section-SectionAt y root (codes "broadcast") n r_n,
        validate_node_exists-IsThere y n (codes "tcp_push") u2 r_u2,
        validate_node_exists-IsThere y n (codes "websocket_push") u3 r_u3,
        (
          t,
          not_thrown _ r_t,
          parse_broad_cast_push_config-BroadCastPushConfigAt y t tcp_push r_tcp_push,
        ),
        (
          w,
          not_thrown _ r_w,
          parse_broad_cast_push_config-BroadCastPushConfigAt y w websocket_push r_websocket_push,
        ),
      )

  -- A section that a function parses.
  abbrev pub ParsedAt : {A : Type 0} → N → Bytes → (N → A → Type 0) → A → Type 0
  ParsedAt root key P a = (n : N) × SectionAt y root key n × P n a

  parsed-ParsedAt :
      {A : Type 0} (root : N) (key : Bytes) (P : N → A → Type 0) (parse : N → Loading A) (a : A)
      → ((n : N) → parse n ≡ loaded a → P n a)
      → (section y root key >>= parse) ≡ loaded a
      → ParsedAt root key P a
  parsed-ParsedAt root key P parse a reads h =
      let (n, there, parsed) = bound (section y root key) parse h in
      (n, section-SectionAt y root key n there, reads n parsed)

  -- A section that may be missing.
  abbrev pub OptionalAt : {A : Type 0} → N → Bytes → (N → A → Type 0) → A → A → Type 0
  OptionalAt root key P default a = (n : N) × (child root key ≡ some n) × PartAt y n P default a

  optional-OptionalAt :
      {A : Type 0} (root : N) (key : Bytes) (P : N → A → Type 0) (default : A)
      (parse : N → Loading A) (a : A)
      → ((n : N) → parse n ≡ loaded a → P n a)
      → (or_throw (child root key) >>= λ n. when_defined y n default parse) ≡ loaded a
      → OptionalAt root key P default a
  optional-OptionalAt root key P default parse a reads h =
      let (n, there, read) =
        bound (or_throw (child root key)) (λ n. when_defined y n default parse) h in
      (n, not_thrown _ there, when_defined-PartAt y n P default parse a reads read)

  -- Each value of the configuration stands where its name says, in a section that is there.
  pub record ConfigAt (root : N) (c : AppConfiguration) : Type 0 where
    pub names : NamesOf root (c.app_name, c.version)
    pub ingestion : IngestionOf root (c.tcp_config, c.udp_config, c.file_config)
    pub router : ParsedAt root (codes "router") (RouterAt y) c.router
    pub rule_engine : ParsedAt root (codes "rule_engine") (RuleEngineAt y) c.rule_engine
    pub storage : ParsedAt root (codes "storage") (StorageConfigAt y) c.storage
    pub python : ParsedAt root (codes "python_integration") (PythonConfigAt y) c.python
    pub broadcast : BroadcastOf root (c.tcp_push, c.websocket_push)
    pub plugin_list : PluginsAt y root c.plugin_list
    pub thread_pool :
        OptionalAt root
          (codes "Threads_pool")
          (ThreadsPoolConfigAt y)
          (record { min_threads = pos 2; max_threads = pos 8 })
          c.thread_pool
    pub numa : OptionalAt root (codes "numa") (NumaConfigAt y) (no_numa y) c.numa

  pub read_config-ConfigAt :
      (root : N) (v : AppConfiguration) → read_config y root ≡ loaded v → ConfigAt root v
  unfolding read_config
  read_config-ConfigAt root v h =
      let (names, r_names, h0) = bound (read_names y root) _ h in
      let (ingestion, r_ingestion, h1) = bound (read_ingestion y root) _ h0 in
      let (router, r_router, h2) =
        bound (section y root (codes "router") >>= parse_router y) _ h1 in
      let (rule_engine, r_rule_engine, h3) =
        bound (section y root (codes "rule_engine") >>= parse_rule_engine y) _ h2 in
      let (storage, r_storage, h4) =
        bound (section y root (codes "storage") >>= parse_storage y) _ h3 in
      let (python, r_python, h5) =
        bound (section y root (codes "python_integration") >>= parse_python y) _ h4 in
      let (broadcast, r_broadcast, h6) = bound (read_broadcast y root) _ h5 in
      let (plugin_list, r_plugin_list, h7) = bound (parse_plugins y root) _ h6 in
      let (thread_pool, r_thread_pool, h8) =
        bound
          (or_throw (child root (codes "Threads_pool")) >>= λ n.
            when_defined y n (default_threads y) (parse_threads_pool y))
          _ h7 in
      let (numa, r_numa, h9) =
        bound
          (or_throw (child root (codes "numa")) >>= λ n.
            when_defined y n (no_numa y) (parse_numa y))
          _ h8 in
      subst (ConfigAt root) (loaded_same h9) record {
        names = read_names-NamesOf root names r_names;
        ingestion = read_ingestion-IngestionOf root ingestion r_ingestion;
        router =
            parsed-ParsedAt root _ (RouterAt y) (parse_router y) router
              (λ n. parse_router-RouterAt y n router) r_router;
        rule_engine =
            parsed-ParsedAt root _ (RuleEngineAt y) (parse_rule_engine y) rule_engine
              (λ n. parse_rule_engine-RuleEngineAt y n rule_engine) r_rule_engine;
        storage =
            parsed-ParsedAt root _ (StorageConfigAt y) (parse_storage y) storage
              (λ n. parse_storage-StorageConfigAt y n storage) r_storage;
        python =
            parsed-ParsedAt root _ (PythonConfigAt y) (parse_python y) python
              (λ n. parse_python-PythonConfigAt y n python) r_python;
        broadcast = read_broadcast-BroadcastOf root broadcast r_broadcast;
        plugin_list = parse_plugins-PluginsAt y root plugin_list r_plugin_list;
        thread_pool =
            optional-OptionalAt root _ (ThreadsPoolConfigAt y) (default_threads y)
              (parse_threads_pool y) thread_pool
              (λ n. parse_threads_pool-ThreadsPoolConfigAt y n thread_pool) r_thread_pool;
        numa =
            optional-OptionalAt root _ (NumaConfigAt y) (no_numa y) (parse_numa y) numa
              (λ n. parse_numa-NumaConfigAt y n numa) r_numa;
      }
