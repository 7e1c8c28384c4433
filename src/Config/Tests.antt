-- ===== src/Config/Tests.antt =====
-- A library of YAML whose documents are numbers, the same at each key.
use event_stream_core.Common.{◌≡◌, refl, ◌↔◌, true, some, [], codes}
use event_stream_core.Config.{
  ℤ, pos, negsuc, AppConfiguration, invalid_port_number, loaded, thrown, Yaml, validate,
}
use event_stream_core.Config.Load.{
  string_at, int_at, flag_at, node_number_at, validate_node_exists, parse_tcp_config,
  parse_udp_config, parse_file_config, parse_broad_cast_push_config, parse_router,
  parse_rule_engine, parse_storage, parse_python, plugin_names, parse_plugins, parse_threads_pool,
  parse_numa, read_names, read_ingestion, read_broadcast, read_config, load_config,
}
use event_stream_core.Config.Checked.{IsLoaded, load_config_lem}

-- Each node gives its number, and one text and one flag.
abbrev toy : Yaml ℤ
toy = record {
  child = λ n key. some n;
  is_defined = λ n. true;
  as_string = λ n. some (codes "sqlite");
  as_int = λ n. some n;
  as_bool_or = λ n d. true;
  as_int_or = λ n d. n;
  elements = λ n. [];
}

abbrev eighty : AppConfiguration
eighty =
    let text = codes "sqlite" in
    record {
      app_name = text;
      version = text;
      tcp_config = record { host = text; port = pos 80; enable = true; max_connections = pos 80 };
      udp_config = record { host = text; port = pos 80; enable = true; buffer_size = pos 80 };
      file_config = record { path = text; enable = true; poll_interval_ms = pos 80 };
      router = record { shards = pos 80; strategy = text; buffer_size = pos 80 };
      rule_engine = record {
        enable_cache = true;
        rules_file = text;
        threads = pos 80;
        cache_size = pos 80;
      };
      storage = record { backend = text; path = text };
      python = record { enable = true; script_path = text };
      tcp_push = record { host = text; port = pos 80; enable = true };
      websocket_push = record { host = text; port = pos 80; enable = true };
      plugin_list = [];
      thread_pool = record { min_threads = pos 80; max_threads = pos 80 };
      numa = record {
        enable = true;
        dispatcher_node = pos 80;
        ingest_node = pos 80;
        realtime_proc_node = pos 80;
        transactional_proc_node = pos 80;
        batch_proc_node = pos 80;
      };
    }

a_negative_port_is_refused : load_config toy true (some (negsuc 0)) ≡ thrown invalid_port_number
unfolding load_config read_config read_names read_ingestion read_broadcast validate
    validate_node_exists string_at int_at flag_at parse_tcp_config parse_udp_config
    parse_file_config parse_router parse_rule_engine parse_storage parse_python
    parse_broad_cast_push_config parse_plugins plugin_names parse_threads_pool parse_numa
    node_number_at
a_negative_port_is_refused = refl

load_config_lem_example :
    (load_config toy true (some (pos 80)) ≡ loaded eighty)
    ↔ IsLoaded toy true (some (pos 80)) eighty
load_config_lem_example = load_config_lem toy true (some (pos 80)) eighty
