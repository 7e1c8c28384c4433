-- ===== src/Config.antt =====
-- src/core/config/loader.cpp with include/eventstream/core/config/config.hpp: the settings read from
-- a YAML file, and their validation. The YAML library is a parameter: what its nodes give, and
-- where it throws.
pub mod Load
pub mod Keys
pub mod Sections
pub mod Parts
pub mod Reading
pub mod Checked
mod Tests
use event_stream_core.Common.{
  ℕ, Bool, true, false, not, ◌&&◌, ◌||◌, Option, none, some, List, ltb, leb, if◌then◌else◌, length,
  Bytes, codes, bytes_eq,
}

-- An `int`; `negsuc n` is -(n + 1).
pub data ℤ : Type 0 where
  pos : ℕ → ℤ
  negsuc : ℕ → ℤ

abbrev pub is_positive : ℤ → Bool
is_positive (pos n) = ltb 0 n
is_positive (negsuc n) = false

abbrev pub is_negative : ℤ → Bool
is_negative (pos n) = false
is_negative (negsuc n) = true

-- `> 65535`.
abbrev pub above_ports : ℤ → Bool
above_ports (pos n) = ltb 65535 n
above_ports (negsuc n) = false

pub record TcpConfig : Type 0 where
  pub host : Bytes
  pub port : ℤ
  pub enable : Bool
  pub max_connections : ℤ

pub record UdpConfig : Type 0 where
  pub host : Bytes
  pub port : ℤ
  pub enable : Bool
  pub buffer_size : ℤ

pub record FileConfig : Type 0 where
  pub path : Bytes
  pub enable : Bool
  pub poll_interval_ms : ℤ

pub record Router : Type 0 where
  pub shards : ℤ
  pub strategy : Bytes
  pub buffer_size : ℤ

pub record RuleEngine : Type 0 where
  pub enable_cache : Bool
  pub rules_file : Bytes
  pub threads : ℤ
  pub cache_size : ℤ

pub record StorageConfig : Type 0 where
  pub backend : Bytes
  pub path : Bytes

pub record PythonConfig : Type 0 where
  pub enable : Bool
  pub script_path : Bytes

pub record BroadCastPushConfig : Type 0 where
  pub host : Bytes
  pub port : ℤ
  pub enable : Bool

pub record ThreadsPoolConfig : Type 0 where
  pub min_threads : ℤ
  pub max_threads : ℤ

pub record NumaConfig : Type 0 where
  pub enable : Bool
  pub dispatcher_node : ℤ
  pub ingest_node : ℤ
  pub realtime_proc_node : ℤ
  pub transactional_proc_node : ℤ
  pub batch_proc_node : ℤ

pub record AppConfiguration : Type 0 where
  pub app_name : Bytes
  pub version : Bytes
  pub tcp_config : TcpConfig
  pub udp_config : UdpConfig
  pub file_config : FileConfig
  pub router : Router
  pub rule_engine : RuleEngine
  pub storage : StorageConfig
  pub python : PythonConfig
  pub tcp_push : BroadCastPushConfig
  pub websocket_push : BroadCastPushConfig
  pub plugin_list : List Bytes
  pub thread_pool : ThreadsPoolConfig
  pub numa : NumaConfig

-- What `loadConfig` throws; `yaml_error` is an exception of the library.
pub data LoadError : Type 0 where
  file_not_found yaml_error invalid_port_number invalid_file_ingestion : LoadError
  invalid_info_router invalid_rule_engine unsupported_storage invalid_python : LoadError
  missing_key : Bytes → LoadError

-- A computation that may throw.
pub data Loading (A : Type 0) : Type 0 where
  thrown : LoadError → Loading A
  loaded : A → Loading A

abbrev pub or_throw : {A : Type 0} → Option A → Loading A
or_throw (some value) = loaded value
or_throw none = thrown yaml_error

abbrev pub throw_if : Bool → LoadError → Loading Unit
throw_if condition error = if condition then thrown error else loaded tt

-- What follows is not reached after a throw.
infixl 5 ◌>>=◌ ◌>>◌
abbrev pub ◌>>=◌ : {A B : Type 0} → Loading A → (A → Loading B) → Loading B
thrown error >>= rest = thrown error
loaded value >>= rest = rest value

abbrev pub ◌>>◌ : {B : Type 0} → Loading Unit → Loading B → Loading B
first >> second = first >>= λ _. second

-- The nodes of the library: `node[key]` and `as<T>()`, which may throw, `as<T>(default)`, the test
-- whether a node is defined, and the elements of a sequence.
pub record Yaml (N : Type 0) : Type 0 where
  pub child : N → Bytes → Option N
  pub is_defined : N → Bool
  pub as_string : N → Option Bytes
  pub as_int : N → Option ℤ
  pub as_bool_or : N → Bool → Bool
  pub as_int_or : N → ℤ → ℤ
  pub elements : N → List N

-- A port that the validation refuses.
abbrev pub bad_port : ℤ → Bool
bad_port p = not (is_positive p) || above_ports p

abbrev pub unsupported : Bytes → Bool
unsupported backend =
    not (bytes_eq backend (codes "sqlite")) && not (bytes_eq backend (codes "filesystem"))

-- The validations at the end of `loadConfig`, in order.
unfoldable pub validate : AppConfiguration → Loading AppConfiguration
validate c = do
  throw_if (bad_port c.tcp_config.port) invalid_port_number
  throw_if (bad_port c.udp_config.port) invalid_port_number
  throw_if (c.file_config.enable && leb (length c.file_config.path) 0) invalid_file_ingestion
  throw_if (not (is_positive c.router.shards) || not (is_positive c.router.buffer_size))
      invalid_info_router
  throw_if (not (is_positive c.rule_engine.threads) || is_negative c.rule_engine.cache_size)
      invalid_rule_engine
  throw_if (unsupported c.storage.backend) unsupported_storage
  throw_if (c.python.enable && leb (length c.python.script_path) 0) invalid_python
  loaded c
