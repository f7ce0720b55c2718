-- ===== src/DeviceManager/Run/Tests.antt =====
-- Pods that share a GPU of a node that has registered, and two of them that leave it.
use faas_share.Common.{String, pos, Option, none, some, List, [], ◌∷◌}
use faas_share.Kube.Thousandths.{thousandths}
use faas_share.DeviceManager.State.{State}
use faas_share.DeviceManager.Pool.{Claim}
use faas_share.DeviceManager.Run.{Section, registers, claims, hears, leaves, deletes, run_sections}
use faas_share.DeviceManager.Run.Sound.{Sound}

abbrev half : String → Claim thousandths
half key = record { key = key; request = 500; limit = 800; memory = pos 1024 }

abbrev sections : List (Section thousandths)
sections =
    registers "n1" "10.0.0.7:4321" "10.0.0.7" "GPU-a:16160," []
    ∷ claims "n1" "abcde" (half "fn/a") (pos 0)
    ∷ claims "n1" "abcde" (half "fn/b") (pos 0)
    ∷ claims "n1" "abcde" (half "fn/c") (pos 0)
    ∷ hears "n1" (pos 100) (some "heartbeat!\n")
    ∷ leaves "n1" "abcde" "fn/a"
    ∷ leaves "n1" "abcde" "fn/b"
    ∷ deletes "n1" "abcde" ""
    ∷ []

abbrev no_nodes : State thousandths
no_nodes = record { nodes = []; statuses = []; calls = [] }

abbrev final : Option (State thousandths)
final = run_sections thousandths sections no_nodes

abbrev last : State thousandths
last = elim final [ none ↦ no_nodes | some t ↦ t ]
