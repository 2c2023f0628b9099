-- ===== src/Config/Laws.antt =====
-- What every configuration satisfies after overrideFromEnv, whatever the file and the environment.
use lumenvec.Base.{
  ◌≡◌, refl, sym, ◌∙◌, ◌⊎◌, inl, inr, Bool, true, false, ◌||◌, Text, Text-Eq, text_eq, text_eq_iff,
  bytes, ◌==◌, if◌then◌else◌, arith, Bool-cases,
}
use lumenvec.Base.Ints.{is_nonpos}
use lumenvec.Base.Strings.{trim_space, to_lower}
use lumenvec.Config.{Config, SecurityConfig}
use lumenvec.Config.Defaults.{
  normalize_protocol, apply_transport_defaults, normalize_ann_profile, ann_profile_defaults,
  apply_ann_profile_defaults, normalize_security_profile, is_unset, has_some, production_defaults,
  development_defaults, apply_security_defaults,
}
use lumenvec.Config.Env.{Environment, read_env, override_from_env}

-- The transport and ANN settings that the server is built from.
pub record IsNormal (cfg : Config) : Type 0 where
  pub protocol : (cfg.server.protocol ≡ bytes "http") ⊎ (cfg.server.protocol ≡ bytes "grpc")
  pub transport : cfg.grpc.enabled ≡ (cfg.server.protocol == bytes "grpc")
  pub profile :
      (cfg.search.ann_profile ≡ bytes "fast")
      ⊎ (cfg.search.ann_profile ≡ bytes "quality")
      ⊎ (cfg.search.ann_profile ≡ bytes "balanced")
  pub m : is_nonpos cfg.search.ann_m ≡ false
  pub ef_construct : is_nonpos cfg.search.ann_ef_construct ≡ false
  pub ef_search : is_nonpos cfg.search.ann_ef_search ≡ false

normalize_protocol-cases :
    (p : Text) → (normalize_protocol p ≡ bytes "http") ⊎ (normalize_protocol p ≡ bytes "grpc")
unfolding normalize_protocol
normalize_protocol-cases p = elim (Bool-cases (to_lower (trim_space p) == bytes "grpc")) [
  | inl e ↦ inr (rw (e, normalize_protocol))
  | inr e ↦ inl (rw (e, normalize_protocol))
]

normalize_ann_profile-cases :
    (p : Text)
    → (normalize_ann_profile p ≡ bytes "fast")
      ⊎ (normalize_ann_profile p ≡ bytes "quality")
      ⊎ (normalize_ann_profile p ≡ bytes "balanced")
unfolding normalize_ann_profile
normalize_ann_profile-cases p = elim (Bool-cases (to_lower (trim_space p) == bytes "fast")) [
  | inl e ↦ inl (rw (e, normalize_ann_profile))
  | inr e ↦ elim (Bool-cases (to_lower (trim_space p) == bytes "quality")) [
    | inl f ↦ inr (inl (rw (e, f, normalize_ann_profile)))
    | inr f ↦ inr (inr (rw (e, f, normalize_ann_profile)))
  ]
]

ann_profile_defaults-pos :
    (p : Text)
    → (is_nonpos (ann_profile_defaults p).0 ≡ false)
      × (is_nonpos (ann_profile_defaults p).1 ≡ false)
      × (is_nonpos (ann_profile_defaults p).2 ≡ false)
unfolding ann_profile_defaults
ann_profile_defaults-pos p = ground arith

security_keeps :
    (cfg : Config)
    → ((apply_security_defaults cfg).server ≡ cfg.server)
      × ((apply_security_defaults cfg).grpc ≡ cfg.grpc)
      × ((apply_security_defaults cfg).search ≡ cfg.search)
unfolding apply_security_defaults
security_keeps cfg = (refl, refl, refl)

defaults-IsNormal :
    (cfg : Config)
    → IsNormal (apply_security_defaults (apply_ann_profile_defaults (apply_transport_defaults cfg)))
unfolding apply_security_defaults apply_ann_profile_defaults apply_transport_defaults
defaults-IsNormal cfg =
    let profile = normalize_ann_profile cfg.search.ann_profile in
    record {
      protocol = normalize_protocol-cases cfg.server.protocol;
      transport = refl;
      profile = normalize_ann_profile-cases cfg.search.ann_profile;
      m = ground (arith, ann_profile_defaults-pos profile);
      ef_construct = ground (arith, ann_profile_defaults-pos profile);
      ef_search = ground (arith, ann_profile_defaults-pos profile);
    }

-- Whatever the configuration file and the environment hold, the protocol is `http` or `grpc` and
-- the gRPC flag says which; the ANN profile is one of three and its parameters are positive.
pub override_from_env-IsNormal :
    (env : Environment) (cfg : Config) → IsNormal (override_from_env env cfg)
unfolding override_from_env
override_from_env-IsNormal env cfg = defaults-IsNormal (read_env env cfg)

-- The production profile, on the final settings.
pub record IsHardened (s : SecurityConfig) : Type 0 where
  pub strict : s.storage.strict_file_permissions ≡ true
  pub dir_mode : (is_unset s.storage.dir_mode || s.storage.dir_mode == bytes "0755") ≡ false
  pub file_mode : (is_unset s.storage.file_mode || s.storage.file_mode == bytes "0644") ≡ false
  pub keyed : is_unset s.auth.api_key ≡ false → s.auth.enabled ≡ true
  pub grpc : s.auth.grpc_enabled ≡ s.auth.enabled
  pub proxies : s.proxy.trust_forwarded_for ≡ true → has_some s.proxy.trusted_proxies ≡ true

replaced :
    (weak : Text → Bool) (new old : Text)
    → weak new ≡ false
    → weak (if weak old then new else old) ≡ false
replaced weak new old h = elim (Bool-cases (weak old)) [ inl e ↦ rw e h | inr e ↦ rw e e ]

production-IsHardened : (s : SecurityConfig) → IsHardened (production_defaults s)
unfolding production_defaults trim_space text_eq
production-IsHardened s = record {
  strict = refl;
  dir_mode = replaced (λ t. is_unset t || t == bytes "0755") (bytes "0700") s.storage.dir_mode refl;
  file_mode =
      replaced (λ t. is_unset t || t == bytes "0644") (bytes "0600") s.storage.file_mode refl;
  keyed = λ h. ground arith;
  grpc = refl;
  proxies = λ h. ground arith;
}

-- The profile that is in force, whichever branch ran.
security_profile :
    (cfg : Config)
    → (apply_security_defaults cfg).security.profile
      ≡ normalize_security_profile cfg.security.profile
unfolding apply_security_defaults production_defaults development_defaults
security_profile cfg = ground arith

apply_security_defaults-IsHardened :
    (cfg : Config)
    → normalize_security_profile cfg.security.profile ≡ bytes "production"
    → IsHardened (apply_security_defaults cfg).security
unfolding apply_security_defaults
apply_security_defaults-IsHardened cfg h =
    rw ((text_eq_iff (normalize_security_profile cfg.security.profile) (bytes "production")).1 h)
      (production-IsHardened _)

-- Where the profile in force is `production`, storage permissions are strict and not the
-- world-readable defaults, a set API key switches authentication on for both transports alike, and
-- forwarded addresses are trusted only with a list of proxies.
pub override_from_env-IsHardened :
    (env : Environment) (cfg : Config)
    → (override_from_env env cfg).security.profile ≡ bytes "production"
    → IsHardened (override_from_env env cfg).security
unfolding override_from_env
override_from_env-IsHardened env cfg h =
    let c = apply_ann_profile_defaults (apply_transport_defaults (read_env env cfg)) in
    apply_security_defaults-IsHardened c (sym (security_profile c) ∙ h)
