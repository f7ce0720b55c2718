-- ===== src/Settings/Tests.antt =====
-- An environment that sets the delay of the readiness probe alone.
use faas_share.Common.{
  Bool, false, some, [], ◌∷◌, is_empty, str_eq, pos, if◌then◌else◌, ◌≡◌, refl, arith,
}
use faas_share.Settings.{
  Provider, bootstrap, deploy_config, make_probes, read_config, valid_pull_policy, exec,
}
use faas_share.Settings.Probes.{readiness, probe_of, make_probes-env}

abbrev env : Provider
env = record {
  FaasConfig = Bool;
  read = some false;
  getenv = λ key. if str_eq key "readiness_probe_initial_delay_seconds" then "7" else "";
  parse_bool = λ s default. default;
  parse_int = λ s default. if is_empty s then default else pos 7;
  parse_string = λ s default. if is_empty s then default else s;
}

make_probes-env_example :
    let p = probe_of readiness (make_probes (deploy_config (bootstrap env false))) in
    (p.timing ≡ record { initial_delay = pos 7; timeout = pos 1; period = pos 10 })
    × (p.handler ≡ exec ("cat" ∷ "/tmp/.lock" ∷ []))
unfolding read_config valid_pull_policy
make_probes-env_example =
    make_probes-env env (bootstrap env false) readiness 7 1 10 refl (refl, omega arith)
      (refl, omega arith) (refl, omega arith)
