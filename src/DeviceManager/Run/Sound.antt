-- ===== src/DeviceManager/Run/Sound.antt =====
-- What holds of the nodes after every run of the device manager.
use faas_share.Common.{ℕ, ◌+◌, ◌≤◌, false, [], ◌∷◌, All, Map, Values, ◌≡◌}
use faas_share.Kube.{Float64}
use faas_share.Bitmap.{RrBitmap}
use faas_share.DeviceManager.State.{PodRequest, GpuInfo, NodeInfo, State}
use faas_share.DeviceManager.Pool.{Claim}
use faas_share.DeviceManager.Pool.Invariant.{OncePerGpu}
use faas_share.DeviceManager.Pool.Ports.{Taken, PortsTaken}
use faas_share.DeviceManager.Run.Ports.{count_at, count_port}

module _ (fl : Float64) where
  -- A request of at most a whole GPU, and not negative.
  abbrev pub AtMostOne : Claim fl → Type 0
  AtMostOne c = (fl.gt c.request fl.one ≡ false) × (fl.lt c.request fl.zero ≡ false)

  -- No GPU is used beyond 1, and no request on its list is negative.
  abbrev pub IsCharged : GpuInfo fl → Type 0
  IsCharged g =
      (fl.gt g.usage fl.one ≡ false)
      × All (λ (e : PodRequest fl). fl.lt e.request fl.zero ≡ false) g.pod_list

  abbrev pub WithinOne : NodeInfo fl → Type 0
  WithinOne n = Values IsCharged n.gpus

  -- The ports on the lists are taken in the bitmap, and no port but the one before the first is
  -- there twice.
  abbrev pub PortsApart : NodeInfo fl → Type 0
  PortsApart n = PortsTaken fl n × ((k : ℕ) → count_port fl k n.gpus ≤ 1)

  AllTaken : RrBitmap → GpuInfo fl → Type 0
  AllTaken b g = All (λ (e : PodRequest fl). Taken b e.port) g.pod_list

  -- A request is off the lists: the position of its port is on none of them.
  OneLess : PodRequest fl → Map (GpuInfo fl) → Map (GpuInfo fl) → Type 0
  OneLess p gs old = (k : ℕ) → count_port fl k gs + count_at fl k (p ∷ []) ≤ count_port fl k old

  abbrev pub Sound : NodeInfo fl → Type 0
  Sound n = WithinOne n × OncePerGpu fl n × PortsApart n
