-- ===== src/Settings/Probes.antt =====
-- What the probes of a function are, from the environment on.
use faas_share.Common.{
  ℕ, String, ℤ, pos, true, false, ◌<◌, ◌^◌, none, some, [], ◌∷◌, ◌+++◌, if◌then◌else◌, inl, inr,
  Bool-cases, Option-cases, to_int32, ◌≡◌, refl, sym, subst, arith,
}
use faas_share.Settings.{
  Provider, BootstrapConfig, configured, provider_failed, rejected, ReadResult, bootstrap,
  read_config, valid_pull_policy, pull_policy, int32, int32_timing, deploy_config, Probe,
  SharepodProbes, http_get, exec, make_probes,
}

-- `Read` gives a configuration only with a valid policy, and then that of `bootstrap`.
abbrev Given : (env : Provider) → ReadResult env.FaasConfig → Type 0
Given env (configured cfg) =
    (valid_pull_policy (pull_policy env) ≡ true)
    × (faas : env.FaasConfig) × (env.read ≡ some faas)
    × (cfg ≡ bootstrap env faas)
Given env provider_failed = env.read ≡ none
Given env (rejected e) = valid_pull_policy (pull_policy env) ≡ false

read_config-Given : (env : Provider) → Given env (read_config env)
unfolding read_config bootstrap
read_config-Given env = elim (Option-cases env.read) [
  | inl e ↦
      let is : read_config env ≡ provider_failed = rw (e, read_config) refl in
      subst (Given env) (sym is) e
  | inr (faas, e) ↦ elim (Bool-cases (valid_pull_policy (pull_policy env))) [
    | inl v ↦
        let is : read_config env ≡ configured (bootstrap env faas) = rw (e, v, read_config) refl in
        subst (Given env) (sym is) (v, faas, e, refl)
    | inr v ↦
        let is : read_config env
            ≡ rejected ("invalid image_pull_policy configured: " +++ pull_policy env) =
          rw (e, v, read_config) refl in
        subst (Given env) (sym is) v
  ]
]

int32_small : (n : ℕ) → n < 2 ^ 31 → int32 (pos n) ≡ pos n
unfolding int32 to_int32
int32_small n h = ground arith

pub data Kind : Type 0 where
  readiness : Kind
  liveness : Kind

abbrev pub probe_of : Kind → SharepodProbes → Probe
probe_of readiness p = p.readiness
probe_of liveness p = p.liveness

-- A variable of the environment with a number of seconds.
abbrev pub variable : Kind → String → String
variable readiness name = "readiness_probe_" +++ name +++ "_seconds"
variable liveness name = "liveness_probe_" +++ name +++ "_seconds"

-- The number that a variable gives, which an int32 holds.
abbrev pub Gives : Provider → String → ℕ → ℕ → Type 0
Gives env key default n = (env.parse_int (env.getenv key) (pos default) ≡ pos n) × (n < 2 ^ 31)

timing_of :
    (a b c : ℤ) (x y z : ℕ)
    → (a ≡ pos x) × (x < 2 ^ 31)
    → (b ≡ pos y) × (y < 2 ^ 31)
    → (c ≡ pos z) × (z < 2 ^ 31)
    → int32_timing (record { initial_delay = a; timeout = b; period = c })
      ≡ record { initial_delay = pos x; timeout = pos y; period = pos z }
unfolding int32_timing
timing_of a b c x y z (ha, la) (hb, lb) (hc, lc) =
    rw (ha, hb, hc, int32_small x la, int32_small y lb, int32_small z lc) refl

-- From the environment to the probes: if `Read` gives a configuration, and the three variables of
-- a kind of probe give numbers of seconds below 2^31 (3, 1 and 10 are the defaults), then the
-- probe of that kind has exactly these; and it asks for /_/health on port 8080 if `http_probe` is
-- set, and reads the lock file if not.
pub make_probes-env :
    (env : Provider) (cfg : BootstrapConfig env.FaasConfig) (kind : Kind) (delay timeout period : ℕ)
    → read_config env ≡ configured cfg
    → Gives env (variable kind "initial_delay") 3 delay
    → Gives env (variable kind "timeout") 1 timeout
    → Gives env (variable kind "period") 10 period
    → let p = probe_of kind (make_probes (deploy_config cfg)) in
      (p.timing ≡ record { initial_delay = pos delay; timeout = pos timeout; period = pos period })
      × (p.handler ≡ (
          if env.parse_bool (env.getenv "http_probe") false
          then http_get "/_/health" (pos 8080)
          else exec ("cat" ∷ "/tmp/.lock" ∷ [])))
unfolding make_probes deploy_config bootstrap
make_probes-env env cfg readiness delay timeout period e hd ht hp =
    let (_, faas, _, is) = subst (Given env) e (read_config-Given env) in
    rw is (timing_of _ _ _ delay timeout period hd ht hp, refl)
make_probes-env env cfg liveness delay timeout period e hd ht hp =
    let (_, faas, _, is) = subst (Given env) e (read_config-Given env) in
    rw is (timing_of _ _ _ delay timeout period hd ht hp, refl)
