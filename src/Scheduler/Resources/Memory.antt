-- ===== src/Scheduler/Resources/Memory.antt =====
-- The memory of the GPUs of a node: from what the agent of the node writes to what the scheduler reads.
use text.Mathlib.TextLemmas.{nil-append, cons-append, append_assoc}
use faas_share.Common.{
  ℕ, ◌<◌, ◌^◌, ◌*◌, String, pos, some, ◌∷◌, Map, insert, lookup-insert_self, show_int, split, ◌+++◌,
  scale64, wrap64_in_range, ◌≡◌, ◌∙◌, refl, ap, sym, arith, first_part, lookup,
}
use faas_share.Common.TextLaws.{split-append}
use faas_share.Common.Decimal.{parse_int-show_int}
use faas_share.Kube.{Node, gpu_info_key}
use faas_share.ConfigClient.RoundTrip.{Plain}
use faas_share.DeviceManager.Config.{gpu_info_text}
use faas_share.DeviceManager.Session.Devices.{Gpu, entry, commas-entry, split-entry}
use faas_share.Scheduler.Resources.{gpu_mem, fresh_resource, mem_part}

first_entry :
    (d : Gpu) (rest : Map String)
    → Plain d.0
    → first_part (split b',' (gpu_info_text ((d.0, show_int (pos d.1)) ∷ rest))) ≡ entry d
unfolding gpu_info_text
first_entry d rest plain =
    let tail = "," +++ gpu_info_text rest in
    let text : d.0 +++ ":" +++ show_int (pos d.1) +++ tail
        ≡ entry d +++ String.◌∷◌ "," (gpu_info_text rest) =
      sym (
        append_assoc d.0 (":" +++ show_int (pos d.1)) tail
        ∙ ap (λ t. d.0 +++ t) (append_assoc ":" (show_int (pos d.1)) tail))
      ∙ ap (λ t. entry d +++ t)
          (cons-append "," "" (gpu_info_text rest)
            ∙ ap (String.◌∷◌ ",") (nil-append (gpu_info_text rest))) in
    rw (text, split-append "," (entry d) (gpu_info_text rest) (commas-entry d plain)) refl

gpu_mem-first :
    (d : Gpu) (rest annotations : Map String) (n : Node)
    → Plain d.0
    → d.1 < 2 ^ 63
    → n.annotations
      ≡ insert gpu_info_key (gpu_info_text ((d.0, show_int (pos d.1)) ∷ rest)) annotations
    → gpu_mem n ≡ pos d.1
unfolding gpu_mem
gpu_mem-first d rest annotations n plain small e =
    let text = gpu_info_text ((d.0, show_int (pos d.1)) ∷ rest) in
    let here : lookup gpu_info_key n.annotations ≡ some text =
      rw e (lookup-insert_self gpu_info_key text annotations) in
    rw
      (
        here,
        gpu_mem,
        first_entry d rest plain,
        split-entry d plain,
        mem_part,
        parse_int-show_int d.1 small,
      )
      refl

scale64_small : (n k : ℕ) → n * k < 2 ^ 63 → scale64 (pos n) k ≡ pos (n * k)
unfolding scale64
scale64_small n k h = wrap64_in_range (n * k) h

-- The memory that `UpdateNodeGPUInfo` has written for a node is that of the GPU which its loop over
-- the map visits first; Go leaves open which one that is. The scheduler takes it, in MiB, for every
-- GPU of the node, exactly, if it is below 2^43.
pub fresh_resource-gpu_mem :
    (d : Gpu) (rest annotations : Map String) (n : Node)
    → Plain d.0
    → d.1 < 2 ^ 43
    → n.annotations
      ≡ insert gpu_info_key (gpu_info_text ((d.0, show_int (pos d.1)) ∷ rest)) annotations
    → (fresh_resource n).gpu_mem_total ≡ pos (d.1 * 1048576)
unfolding fresh_resource
fresh_resource-gpu_mem d rest annotations n plain small e =
    let mem = gpu_mem-first d rest annotations n plain (omega (arith, small)) e in
    rw
      (
        mem,
        scale64_small d.1 1024 (omega (arith, small)),
        scale64_small (d.1 * 1024) 1024 (omega (arith, small)),
      )
      (ap pos (omega arith))
