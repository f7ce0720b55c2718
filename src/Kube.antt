-- ===== src/Kube.antt =====
-- The fields of the Kubernetes objects that the program reads and writes, the names of the
-- annotations (pkg/apis/kubeshare/v1/types.go), and the floating-point numbers that it computes
-- with. An amount of CPU or memory is what `Quantity.MilliValue` returns for it.
pub mod GpuSpec
pub mod Thousandths
pub mod WorkQueue
use faas_share.Common.{◌≡◌, refl, ◌⊎◌, inl, inr, ℤ, Map, String, Bool, List, Option}

pub record OwnerReference : Type 0 where
  pub kind : String
  pub name : String
  pub controller : Bool

pub record EnvVar : Type 0 where
  pub name : String
  pub value : String

pub record VolumeMount : Type 0 where
  pub name : String
  pub mount_path : String
  pub read_only : Bool

-- A projection of a secret as files: its name, and the keys with the paths that they get.
pub record SecretProjection : Type 0 where
  pub name : String
  pub items : List (String × String)

-- A volume: the path of a host path volume, or else empty, and the sources of a projected volume.
pub record Volume : Type 0 where
  pub name : String
  pub host_path : String
  pub projected : Option (List (Option SecretProjection))

pub record Container : Type 0 where
  pub name : String
  pub cpu_milli : ℤ
  pub mem_milli : ℤ
  pub gpus : ℤ
  pub env : List EnvVar
  pub volume_mounts : List VolumeMount

pub record Pod : Type 0 where
  pub namespace : String
  pub name : String
  pub labels : Map String
  pub annotations : Map String
  pub owner_references : List OwnerReference
  pub node_name : String
  pub restart_policy : String
  pub phase : String
  pub containers : List Container
  pub volumes : List Volume

pub record Node : Type 0 where
  pub name : String
  pub annotations : Map String
  pub taint_effects : List String
  pub cpu_milli : ℤ
  pub mem_milli : ℤ
  pub gpus : ℤ

abbrev pub gpu_request_key : String
gpu_request_key = "kubeshare/gpu_request"

abbrev pub gpu_limit_key : String
gpu_limit_key = "kubeshare/gpu_limit"

abbrev pub gpu_mem_key : String
gpu_mem_key = "kubeshare/gpu_mem"

abbrev pub gpuid_key : String
gpuid_key = "kubeshare/GPUID"

abbrev pub dummy_pod_name : String
dummy_pod_name = "kubeshare-vgpu"

abbrev pub gpu_info_key : String
gpu_info_key = "kubeshare/gpu_info"

-- What `Get` of a lister answers.
pub data Lookup {ℓ} (A : Type ℓ) : Type ℓ where
  found : A → Lookup A
  not_found : Lookup A
  failed : Lookup A

pub Lookup-cases {ℓ} :
    {A : Type ℓ} (l : Lookup A) → ((a : A) × (l ≡ found a)) ⊎ ((l ≡ not_found) ⊎ (l ≡ failed))
Lookup-cases (found a) = inl (a, refl)
Lookup-cases not_found = inr (inl refl)
Lookup-cases failed = inr (inr refl)

-- float64 with the operations that the program uses: `gt` and `lt` are Go's `>` and `<`, `parse`
-- is `strconv.ParseFloat(s, 64)` with `none` for an error, `milli` is
-- `int64(math.Ceil(x * 1000.0))`, and `print` is `fmt.Sprintf("%f", x)`.
pub record Float64 : Type 1 where
  pub F : Type 0
  pub zero : F
  pub one : F
  pub add : F → F → F
  pub sub : F → F → F
  pub gt : F → F → Bool
  pub lt : F → F → Bool
  pub parse : String → Option F
  pub milli : F → ℤ
  pub print : F → String
