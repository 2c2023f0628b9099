-- ===== src/Config/Env.antt =====
-- overrideFromEnv of internal/config/config.go. The environment is a function from names to
-- values, with the empty text for a name that is not set.
use lumenvec.Base.{
  Bool, List, [], ◌∷◌, none, some, Text, Text-Eq, String, bytes, ◌==◌, if◌then◌else◌,
}
use lumenvec.Base.Ints.{ℤ, is_nonpos, is_neg}
use lumenvec.Base.Strings.{trim_space, parse_bool, parse_int, split_commas}
use lumenvec.Config.{Config}
use lumenvec.Config.Defaults.{
  apply_transport_defaults, apply_ann_profile_defaults, apply_security_defaults,
}

abbrev pub Environment : Type 0
Environment = Text → Text

unfoldable pub text_var : Environment → String → Text → Text
text_var env name old = let v = trim_space (env (bytes name)) in if v == [] then old else v

unfoldable pub bool_var : Environment → String → Bool → Bool
bool_var env name old =
    let v = trim_space (env (bytes name)) in
    if v == [] then old else elim (parse_bool v) [ none ↦ old | some b ↦ b ]

-- n > 0 is asked of the number
unfoldable pub positive_var : Environment → String → ℤ → ℤ
positive_var env name old =
    let v = trim_space (env (bytes name)) in
    if v == []
    then old
    else elim (parse_int v) [ none ↦ old | some n ↦ if is_nonpos n then old else n ]

-- n >= 0 is asked of the number
unfoldable pub nonneg_var : Environment → String → ℤ → ℤ
nonneg_var env name old =
    let v = trim_space (env (bytes name)) in
    if v == []
    then old
    else elim (parse_int v) [ none ↦ old | some n ↦ if is_neg n then old else n ]

unfoldable pub trimmed_parts : List Text → List Text
trimmed_parts [] = []
trimmed_parts (p ∷ ps) =
    let rest = trimmed_parts ps in if trim_space p == [] then rest else trim_space p ∷ rest

unfoldable pub list_var : Environment → String → List Text → List Text
list_var env name old =
    let v = trim_space (env (bytes name)) in if v == [] then old else trimmed_parts (split_commas v)

-- Each variable sets its own field, so the order of the overrides does not show.
unfoldable pub read_env : Environment → Config → Config
read_env env cfg = record {
  server = record {
    protocol = text_var env "VECTOR_DB_PROTOCOL" cfg.server.protocol;
    port = text_var env "VECTOR_DB_PORT" cfg.server.port;
    read_timeout = text_var env "VECTOR_DB_READ_TIMEOUT" cfg.server.read_timeout;
    write_timeout = text_var env "VECTOR_DB_WRITE_TIMEOUT" cfg.server.write_timeout;
    api_key = text_var env "VECTOR_DB_API_KEY" cfg.server.api_key;
    access_log = bool_var env "VECTOR_DB_ACCESS_LOG" cfg.server.access_log;
    metrics = bool_var env "VECTOR_DB_METRICS_ENABLED" cfg.server.metrics;
    rate_limit_rps = nonneg_var env "VECTOR_DB_RATE_LIMIT_RPS" cfg.server.rate_limit_rps;
  };
  database = record {
    snapshot_path = text_var env "VECTOR_DB_SNAPSHOT_PATH" cfg.database.snapshot_path;
    wal_path = text_var env "VECTOR_DB_WAL_PATH" cfg.database.wal_path;
    snapshot_every = positive_var env "VECTOR_DB_SNAPSHOT_EVERY" cfg.database.snapshot_every;
    vector_store = text_var env "VECTOR_DB_VECTOR_STORE" cfg.database.vector_store;
    vector_path = text_var env "VECTOR_DB_VECTOR_PATH" cfg.database.vector_path;
    sync_every = positive_var env "VECTOR_DB_SYNC_EVERY" cfg.database.sync_every;
    cache_enabled = bool_var env "VECTOR_DB_CACHE_ENABLED" cfg.database.cache_enabled;
    cache_max_bytes = positive_var env "VECTOR_DB_CACHE_MAX_BYTES" cfg.database.cache_max_bytes;
    cache_max_items = positive_var env "VECTOR_DB_CACHE_MAX_ITEMS" cfg.database.cache_max_items;
    cache_ttl = text_var env "VECTOR_DB_CACHE_TTL" cfg.database.cache_ttl;
  };
  limits = record {
    max_body_bytes = positive_var env "VECTOR_DB_MAX_BODY_BYTES" cfg.limits.max_body_bytes;
    max_vector_dim = positive_var env "VECTOR_DB_MAX_VECTOR_DIM" cfg.limits.max_vector_dim;
    max_k = positive_var env "VECTOR_DB_MAX_K" cfg.limits.max_k;
  };
  search = record {
    mode = text_var env "VECTOR_DB_SEARCH_MODE" cfg.search.mode;
    ann_profile = text_var env "VECTOR_DB_ANN_PROFILE" cfg.search.ann_profile;
    ann_m = positive_var env "VECTOR_DB_ANN_M" cfg.search.ann_m;
    ann_ef_construct = positive_var env "VECTOR_DB_ANN_EF_CONSTRUCTION" cfg.search.ann_ef_construct;
    ann_ef_search = positive_var env "VECTOR_DB_ANN_EF_SEARCH" cfg.search.ann_ef_search;
    ann_eval_sample_rate =
        nonneg_var env "VECTOR_DB_ANN_EVAL_SAMPLE_RATE" cfg.search.ann_eval_sample_rate;
  };
  grpc = record {
    enabled = bool_var env "VECTOR_DB_GRPC_ENABLED" cfg.grpc.enabled;
    port = text_var env "VECTOR_DB_GRPC_PORT" cfg.grpc.port;
  };
  security = record {
    profile = text_var env "VECTOR_DB_SECURITY_PROFILE" cfg.security.profile;
    auth = record {
      enabled = bool_var env "VECTOR_DB_SECURITY_AUTH_ENABLED" cfg.security.auth.enabled;
      api_key = text_var env "VECTOR_DB_SECURITY_API_KEY" cfg.security.auth.api_key;
      grpc_enabled =
          bool_var env "VECTOR_DB_SECURITY_GRPC_AUTH_ENABLED" cfg.security.auth.grpc_enabled;
    };
    transport = record {
      tls_enabled = bool_var env "VECTOR_DB_TLS_ENABLED" cfg.security.transport.tls_enabled;
      cert_file = text_var env "VECTOR_DB_TLS_CERT_FILE" cfg.security.transport.cert_file;
      key_file = text_var env "VECTOR_DB_TLS_KEY_FILE" cfg.security.transport.key_file;
    };
    proxy = record {
      trust_forwarded_for =
          bool_var env "VECTOR_DB_TRUST_FORWARDED_FOR" cfg.security.proxy.trust_forwarded_for;
      trusted_proxies = list_var env "VECTOR_DB_TRUSTED_PROXIES" cfg.security.proxy.trusted_proxies;
    };
    storage = record {
      strict_file_permissions =
          bool_var env "VECTOR_DB_STRICT_FILE_PERMISSIONS"
            cfg.security.storage.strict_file_permissions;
      dir_mode = text_var env "VECTOR_DB_STORAGE_DIR_MODE" cfg.security.storage.dir_mode;
      file_mode = text_var env "VECTOR_DB_STORAGE_FILE_MODE" cfg.security.storage.file_mode;
    };
  };
}

unfoldable pub override_from_env : Environment → Config → Config
override_from_env env cfg =
    apply_security_defaults
      (apply_ann_profile_defaults (apply_transport_defaults (read_env env cfg)))
