-- ===== src/Config/Defaults.antt =====
-- The normalisations that internal/config/config.go runs after the overrides.
use lumenvec.Base.{
  Bool, true, false, ◌&&◌, ◌||◌, not, List, [], ◌∷◌, Text, Text-Eq, bytes, ◌==◌, if◌then◌else◌,
}
use lumenvec.Base.Ints.{ℤ, pos, is_nonpos}
use lumenvec.Base.Strings.{trim_space, to_lower}
use lumenvec.Config.{Config, SecurityConfig}

unfoldable pub normalize_protocol : Text → Text
normalize_protocol protocol =
    if to_lower (trim_space protocol) == bytes "grpc" then bytes "grpc" else bytes "http"

unfoldable pub apply_transport_defaults : Config → Config
apply_transport_defaults cfg = record cfg {
  server = record (cfg.server) { protocol = normalize_protocol cfg.server.protocol };
  grpc = record (cfg.grpc) { enabled = normalize_protocol cfg.server.protocol == bytes "grpc" };
}

unfoldable pub normalize_ann_profile : Text → Text
normalize_ann_profile profile =
    let p = to_lower (trim_space profile) in
    if p == bytes "fast"
    then bytes "fast"
    else if p == bytes "quality"
    then bytes "quality"
    else bytes "balanced"

unfoldable pub ann_profile_defaults : Text → ℤ × ℤ × ℤ
ann_profile_defaults profile =
    let p = normalize_ann_profile profile in
    if p == bytes "fast"
    then (pos 8, pos 32, pos 32)
    else if p == bytes "quality"
    then (pos 24, pos 96, pos 96)
    else (pos 16, pos 64, pos 64)

unfoldable pub apply_ann_profile_defaults : Config → Config
apply_ann_profile_defaults cfg =
    let profile = normalize_ann_profile cfg.search.ann_profile in
    let (m, ef_construct, ef_search) = ann_profile_defaults profile in
    record cfg {
      search = record (cfg.search) {
        ann_profile = profile;
        ann_m = if is_nonpos cfg.search.ann_m then m else cfg.search.ann_m;
        ann_ef_construct =
            if is_nonpos cfg.search.ann_ef_construct
            then ef_construct
            else cfg.search.ann_ef_construct;
        ann_ef_search =
            if is_nonpos cfg.search.ann_ef_search then ef_search else cfg.search.ann_ef_search;
      };
    }

unfoldable pub normalize_security_profile : Text → Text
normalize_security_profile profile =
    if to_lower (trim_space profile) == bytes "production"
    then bytes "production"
    else bytes "development"

abbrev pub is_unset : Text → Bool
is_unset s = trim_space s == []

abbrev pub has_some {ℓ} : {A : Type ℓ} → List A → Bool
has_some [] = false
has_some (x ∷ xs) = true

-- The two branches of the switch over the profile, on the security settings.
unfoldable pub production_defaults : SecurityConfig → SecurityConfig
production_defaults s =
    let enabled = if is_unset s.auth.api_key then s.auth.enabled else true in
    record s {
      auth = record (s.auth) { enabled = enabled; grpc_enabled = enabled };
      proxy = record (s.proxy) {
        trust_forwarded_for = s.proxy.trust_forwarded_for && has_some s.proxy.trusted_proxies;
      };
      storage = record {
        strict_file_permissions = true;
        dir_mode =
            if is_unset s.storage.dir_mode || s.storage.dir_mode == bytes "0755"
            then bytes "0700"
            else s.storage.dir_mode;
        file_mode =
            if is_unset s.storage.file_mode || s.storage.file_mode == bytes "0644"
            then bytes "0600"
            else s.storage.file_mode;
      };
    }

unfoldable pub development_defaults : SecurityConfig → SecurityConfig
development_defaults s = record s {
  auth = record (s.auth) {
    grpc_enabled = if not s.auth.enabled then false else s.auth.grpc_enabled;
  };
  storage = record (s.storage) {
    dir_mode = if is_unset s.storage.dir_mode then bytes "0755" else s.storage.dir_mode;
    file_mode = if is_unset s.storage.file_mode then bytes "0644" else s.storage.file_mode;
  };
}

unfoldable pub apply_security_defaults : Config → Config
apply_security_defaults cfg =
    let profile = normalize_security_profile cfg.security.profile in
    let key =
      if is_unset cfg.security.auth.api_key && not (is_unset cfg.server.api_key)
      then cfg.server.api_key
      else cfg.security.auth.api_key in
    let s = record (cfg.security) {
      profile = profile;
      auth = record (cfg.security.auth) { api_key = key };
    } in
    record cfg {
      security =
          if profile == bytes "production" then production_defaults s else development_defaults s;
    }
