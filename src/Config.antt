-- ===== src/Config.antt =====
-- internal/config/config.go: the configuration record and its default.
pub mod Env
pub mod Defaults
pub mod Laws
use lumenvec.Base.{ℕ, ◌*◌, ◌^◌, Bool, true, false, List, [], Text, bytes}
use lumenvec.Base.Ints.{ℤ, pos}

pub record ServerConfig : Type 0 where
  pub protocol : Text
  pub port : Text
  pub read_timeout : Text
  pub write_timeout : Text
  pub api_key : Text
  pub access_log : Bool
  pub metrics : Bool
  pub rate_limit_rps : ℤ

pub record DatabaseConfig : Type 0 where
  pub snapshot_path : Text
  pub wal_path : Text
  pub snapshot_every : ℤ
  pub vector_store : Text
  pub vector_path : Text
  pub sync_every : ℤ
  pub cache_enabled : Bool
  pub cache_max_bytes : ℤ
  pub cache_max_items : ℤ
  pub cache_ttl : Text

pub record LimitsConfig : Type 0 where
  pub max_body_bytes : ℤ
  pub max_vector_dim : ℤ
  pub max_k : ℤ

pub record SearchConfig : Type 0 where
  pub mode : Text
  pub ann_profile : Text
  pub ann_m : ℤ
  pub ann_ef_construct : ℤ
  pub ann_ef_search : ℤ
  pub ann_eval_sample_rate : ℤ

pub record GrpcConfig : Type 0 where
  pub enabled : Bool
  pub port : Text

pub record AuthConfig : Type 0 where
  pub enabled : Bool
  pub api_key : Text
  pub grpc_enabled : Bool

pub record TransportConfig : Type 0 where
  pub tls_enabled : Bool
  pub cert_file : Text
  pub key_file : Text

pub record ProxyConfig : Type 0 where
  pub trust_forwarded_for : Bool
  pub trusted_proxies : List Text

pub record StorageConfig : Type 0 where
  pub strict_file_permissions : Bool
  pub dir_mode : Text
  pub file_mode : Text

pub record SecurityConfig : Type 0 where
  pub profile : Text
  pub auth : AuthConfig
  pub transport : TransportConfig
  pub proxy : ProxyConfig
  pub storage : StorageConfig

pub record Config : Type 0 where
  pub server : ServerConfig
  pub database : DatabaseConfig
  pub limits : LimitsConfig
  pub search : SearchConfig
  pub grpc : GrpcConfig
  pub security : SecurityConfig

abbrev pub default_config : Config
default_config = record {
  server = record {
    protocol = bytes "http";
    port = bytes "19190";
    read_timeout = bytes "10s";
    write_timeout = bytes "10s";
    api_key = [];
    access_log = false;
    metrics = true;
    rate_limit_rps = pos 100;
  };
  database = record {
    snapshot_path = bytes "./data/snapshot.json";
    wal_path = bytes "./data/wal.log";
    snapshot_every = pos 25;
    vector_store = bytes "memory";
    vector_path = bytes "./data/vectors";
    sync_every = pos 1;
    cache_enabled = false;
    cache_max_bytes = pos (8 * 2 ^ 20);
    cache_max_items = pos 1024;
    cache_ttl = bytes "15m";
  };
  limits = record { max_body_bytes = pos (2 ^ 20); max_vector_dim = pos 4096; max_k = pos 100 };
  search = record {
    mode = bytes "exact";
    ann_profile = bytes "balanced";
    ann_m = pos 0;
    ann_ef_construct = pos 0;
    ann_ef_search = pos 0;
    ann_eval_sample_rate = pos 0;
  };
  grpc = record { enabled = false; port = bytes "19191" };
  security = record {
    profile = bytes "development";
    auth = record { enabled = false; api_key = []; grpc_enabled = false };
    transport = record { tls_enabled = false; cert_file = []; key_file = [] };
    proxy = record { trust_forwarded_for = false; trusted_proxies = [] };
    storage = record {
      strict_file_permissions = false;
      dir_mode = bytes "0755";
      file_mode = bytes "0644";
    };
  };
}
