-- ===== src/Settings.antt =====
-- pkg/config/read_config.go: the configuration from the environment, and what main.go and
-- pkg/k8s/probes.go make of it. The parsers of faas-provider and its own configuration are
-- parameters.
pub mod Probes
pub mod Tests
use faas_share.Common.{
  ℕ, String, ℤ, pos, negsuc, to_int32, Bool, true, false, ◌||◌, Option, none, some, List, [], ◌∷◌,
  ◌%◌, ◌^◌, ◌-◌, str_eq, ltb, ◌+++◌, if◌then◌else◌,
}

-- int32(n), for an int.
unfoldable pub int32 : ℤ → ℤ
unfolding to_int32
int32 (pos n) = to_int32 n
int32 (negsuc n) = let r = n % 2 ^ 32 in if ltb r (2 ^ 31) then negsuc r else pos (2 ^ 32 - 1 - r)

-- The functions of `ftypes` that `Read` calls, and `hasEnv.Getenv`.
pub record Provider : Type 1 where
  pub FaasConfig : Type 0
  pub read : Option FaasConfig
  pub getenv : String → String
  pub parse_bool : String → Bool → Bool
  pub parse_int : String → ℤ → ℤ
  pub parse_string : String → String → String

-- The three numbers of a probe.
pub record Timing : Type 0 where
  pub initial_delay : ℤ
  pub timeout : ℤ
  pub period : ℤ

pub record BootstrapConfig (F : Type 0) : Type 0 where
  pub http_probe : Bool
  pub set_non_root_user : Bool
  pub readiness_probe : Timing
  pub liveness_probe : Timing
  pub image_pull_policy : String
  pub default_function_namespace : String
  pub profiles_namespace : String
  pub faas_config : F
  pub cluster_role : Bool

-- What `Read` returns: a configuration, the error of faas-provider, or the error of its own.
pub data ReadResult (F : Type 0) : Type 0 where
  configured : BootstrapConfig F → ReadResult F
  provider_failed : ReadResult F
  rejected : String → ReadResult F

-- `validPullPolicyOptions`
unfoldable pub valid_pull_policy : String → Bool
valid_pull_policy p = str_eq p "Always" || (str_eq p "IfNotPresent" || str_eq p "Never")

module _ (env : Provider) where
  abbrev pub seconds : String → ℕ → ℤ
  seconds key default = env.parse_int (env.getenv key) (pos default)

  abbrev pub pull_policy : String
  pull_policy = env.parse_string (env.getenv "image_pull_policy") "Always"

  -- `Read`, after the configuration of faas-provider and the image pull policy.
  unfoldable pub bootstrap : env.FaasConfig → BootstrapConfig env.FaasConfig
  bootstrap faas =
      let default_namespace = env.parse_string (env.getenv "function_namespace") "default" in
      record {
        http_probe = env.parse_bool (env.getenv "http_probe") false;
        set_non_root_user = env.parse_bool (env.getenv "set_nonroot_user") false;
        readiness_probe = record {
          initial_delay = seconds "readiness_probe_initial_delay_seconds" 3;
          timeout = seconds "readiness_probe_timeout_seconds" 1;
          period = seconds "readiness_probe_period_seconds" 10;
        };
        liveness_probe = record {
          initial_delay = seconds "liveness_probe_initial_delay_seconds" 3;
          timeout = seconds "liveness_probe_timeout_seconds" 1;
          period = seconds "liveness_probe_period_seconds" 10;
        };
        image_pull_policy = pull_policy;
        default_function_namespace = default_namespace;
        profiles_namespace = env.parse_string (env.getenv "profiles_namespace") default_namespace;
        faas_config = faas;
        cluster_role = env.parse_bool (env.getenv "cluster_role") false;
      }

  -- `Read`
  unfoldable pub read_config : ReadResult env.FaasConfig
  read_config = elim env.read [
    | none ↦ provider_failed
    | some faas ↦
        if valid_pull_policy pull_policy
        then configured (bootstrap faas)
        else rejected ("invalid image_pull_policy configured: " +++ pull_policy)
  ]

-- `DeploymentConfig` of pkg/k8s/config.go
pub record DeploymentConfig : Type 0 where
  pub runtime_http_port : ℤ
  pub http_probe : Bool
  pub readiness_probe : Timing
  pub liveness_probe : Timing
  pub image_pull_policy : String
  pub set_non_root_user : Bool
  pub profiles_namespace : String

unfoldable pub int32_timing : Timing → Timing
unfolding int32
int32_timing t = record {
  initial_delay = int32 t.initial_delay;
  timeout = int32 t.timeout;
  period = int32 t.period;
}

-- `deployConfig` of main.go, where the line for SetNonRootUser is commented out.
unfoldable pub deploy_config : {F : Type 0} → BootstrapConfig F → DeploymentConfig
unfolding int32_timing
deploy_config c = record {
  runtime_http_port = pos 8080;
  http_probe = c.http_probe;
  readiness_probe = int32_timing c.readiness_probe;
  liveness_probe = int32_timing c.liveness_probe;
  image_pull_policy = c.image_pull_policy;
  set_non_root_user = false;
  profiles_namespace = c.profiles_namespace;
}

pub data ProbeHandler : Type 0 where
  http_get : String → ℤ → ProbeHandler
  exec : List String → ProbeHandler

pub record Probe : Type 0 where
  pub handler : ProbeHandler
  pub timing : Timing
  pub success_threshold : ℤ
  pub failure_threshold : ℤ

pub record SharepodProbes : Type 0 where
  pub liveness : Probe
  pub readiness : Probe

-- A probe of `MakeProbes`.
abbrev pub make_probe : ProbeHandler → Timing → Probe
make_probe handler t = record {
  handler = handler;
  timing = t;
  success_threshold = pos 1;
  failure_threshold = pos 3;
}

-- `MakeProbes`; the port and the numbers are int32 already.
unfoldable pub make_probes : DeploymentConfig → SharepodProbes
make_probes f =
    let handler =
      if f.http_probe
      then http_get "/_/health" f.runtime_http_port
      else exec ("cat" ∷ "/tmp/.lock" ∷ []) in
    record {
      liveness = make_probe handler f.liveness_probe;
      readiness = make_probe handler f.readiness_probe;
    }
