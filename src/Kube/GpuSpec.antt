-- ===== src/Kube/GpuSpec.antt =====
-- The three GPU annotations of a pod, as the scheduler and the device manager check them.
use faas_share.Common.{
  String, ℤ, pos, Bool, ◌||◌, not, Option, none, some, Map, value_at, is_empty, ltb_ℤ, parse_int,
  if◌then◌else◌,
}
use faas_share.Kube.{Float64, gpu_request_key, gpu_limit_key, gpu_mem_key, gpuid_key}

module _ (fl : Float64) where
  open fl use {F, zero, one, gt, lt, parse}

  pub record GpuSpec : Type 0 where
    pub request : F
    pub limit : F
    pub mem : ℤ

  -- `gpu_limit > 1.0 || gpu_limit < 0.0`
  abbrev pub bad_limit : F → Bool
  bad_limit l = gt l one || lt l zero

  -- `gpu_request > gpu_limit || gpu_request < 0.0`
  abbrev pub bad_request : F → F → Bool
  bad_request l r = gt r l || lt r zero

  abbrev with_mem : F → F → Option ℤ → Option GpuSpec
  with_mem l r none = none
  with_mem l r (some m) =
      if ltb_ℤ m (pos 0) then none else some (record { request = r; limit = l; mem = m })

  abbrev with_request : F → Option F → Option ℤ → Option GpuSpec
  with_request l none m = none
  with_request l (some r) m = if bad_request l r then none else with_mem l r m

  abbrev with_limit : Option F → Option F → Option ℤ → Option GpuSpec
  with_limit none r m = none
  with_limit (some l) r m = if bad_limit l then none else with_request l r m

  -- Limit, request and memory in the order of the checks; `none` where one of them is refused.
  unfoldable pub parse_spec : Map String → Option GpuSpec
  parse_spec a =
      with_limit (parse (value_at gpu_limit_key a)) (parse (value_at gpu_request_key a))
        (parse_int (value_at gpu_mem_key a))

-- Whether one of the four GPU annotations is there and not empty.
unfoldable pub names_gpu : Map String → Bool
names_gpu a =
    not (is_empty (value_at gpu_request_key a))
    || not (is_empty (value_at gpu_limit_key a))
    || not (is_empty (value_at gpu_mem_key a))
    || not (is_empty (value_at gpuid_key a))
