-- ===== src/DeviceManager/Session/Devices.antt =====
-- The list of devices that the agent of a node writes, read by `clientHandler`.
use text.Mathlib.TextLemmas.{nil-append, cons-append, append_assoc}
use faas_share.Common.{
  ℕ, ◌+◌, String, pos, ◌+ℤ◌, false, Option, none, some, List, [], ◌∷◌, ◌++◌, map, All, Map, lookup,
  insert, lookup-insert, str_eq, is_empty, ◌+++◌, show_int, split, count_char, ◌≡◌, refl, sym, ap,
  ◌∙◌, append_assoc as list_assoc, append-nil, arith,
}
use faas_share.Common.TextLaws.{count_char-append, split-append, split-none}
use faas_share.ConfigClient.RoundTrip.{items_text, Plain, Plain-show_int}
use faas_share.ConfigClient.Session.{Device, device_list}
use faas_share.DeviceManager.Config.{read_devices}

-- A GPU of a node: its identifier and its memory.
abbrev pub Gpu : Type 0
Gpu = String × ℕ

abbrev pub devices : List Gpu → List (Option Device)
devices [] = []
devices ((uuid, mem) ∷ ds) = some (record { uuid = uuid; memory = some mem }) ∷ devices ds

-- The memory and the port of each GPU, in order.
abbrev pub memories : List Gpu → Map String
memories [] = []
memories ((uuid, mem) ∷ ds) = (uuid, show_int (pos mem)) ∷ memories ds

abbrev pub ports_from : ℕ → List Gpu → Map String
ports_from port [] = []
ports_from port ((uuid, mem) ∷ ds) = (uuid, show_int (pos port)) ∷ ports_from (port + 1) ds

-- No identifier twice.
abbrev pub Distinct : List Gpu → Type 0
Distinct [] = Unit
Distinct ((uuid, mem) ∷ ds) = All (λ (d : Gpu). str_eq uuid d.0 ≡ false) ds × Distinct ds

abbrev pub entry : Gpu → String
entry d = d.0 +++ ":" +++ show_int (pos d.1)

pub device_list-items :
    (ds : List Gpu) → device_list (devices ds) ≡ some (items_text (map entry ds))
unfolding device_list
device_list-items [] = refl
device_list-items ((uuid, mem) ∷ ds) =
    let rest = "," +++ items_text (map entry ds) in
    rw (device_list-items ds, device_list)
      (ap some (
        sym (
          append_assoc uuid (":" +++ show_int (pos mem)) rest
          ∙ ap (λ t. uuid +++ t) (append_assoc ":" (show_int (pos mem)) rest))))

pub commas-entry : (d : Gpu) → Plain d.0 → count_char b',' (entry d) ≡ 0
unfolding count_char
commas-entry (uuid, mem) plain =
    rw
      (
        count_char-append b',' uuid (":" +++ show_int (pos mem)),
        count_char-append b',' ":" (show_int (pos mem)),
        plain.1,
        (Plain-show_int (pos mem)).1,
      )
      refl

pub split-items :
    (ds : List Gpu)
    → All (λ (d : Gpu). Plain d.0) ds
    → split b',' (items_text (map entry ds)) ≡ map entry ds ++ "" ∷ []
unfolding split
split-items [] h = refl
split-items (d ∷ ds) h =
    let comma : entry d +++ "," +++ items_text (map entry ds)
        ≡ entry d +++ String.◌∷◌ "," (items_text (map entry ds)) =
      ap (λ t. entry d +++ t)
        (cons-append "," "" (items_text (map entry ds))
          ∙ ap (String.◌∷◌ ",") (nil-append (items_text (map entry ds)))) in
    rw
      (
        comma,
        split-append "," (entry d) (items_text (map entry ds)) (commas-entry d h.0),
        split-items ds h.1,
      )
      refl

pub split-entry : (d : Gpu) → Plain d.0 → split b':' (entry d) ≡ d.0 ∷ show_int (pos d.1) ∷ []
split-entry (uuid, mem) plain =
    let colon : ":" +++ show_int (pos mem) ≡ String.◌∷◌ ":" (show_int (pos mem)) =
      cons-append ":" "" (show_int (pos mem))
      ∙ ap (String.◌∷◌ ":") (nil-append (show_int (pos mem))) in
    rw
      (
        colon,
        split-append ":" uuid (show_int (pos mem)) plain.0,
        split-none b':' (show_int (pos mem)) (Plain-show_int (pos mem)).0,
      )
      refl

is_empty-entry : (d : Gpu) → is_empty (entry d) ≡ false
is_empty-entry (String.[], mem) =
    rw (nil-append (":" +++ show_int (pos mem)), cons-append ":" "" (show_int (pos mem))) refl
is_empty-entry (String.◌∷◌ c uuid, mem) = rw (cons-append c uuid (":" +++ show_int (pos mem))) refl

insert-new : (k v : String) (m : Map String) → lookup k m ≡ none → insert k v m ≡ m ++ (k, v) ∷ []
unfolding lookup insert
insert-new k v [] h = refl
insert-new k v ((j, w) ∷ m) h = ground (arith, insert-new k v m)

next_port : (p : ℕ) → pos p +ℤ pos 1 ≡ pos (p + 1)
unfolding ◌+ℤ◌
next_port p = ground arith

abbrev New : List Gpu → Map String → Type 0
New ds m = All (λ (d : Gpu). lookup d.0 m ≡ none) ds

New-insert :
    (uuid v : String) (ds : List Gpu) (m : Map String)
    → All (λ (d : Gpu). str_eq uuid d.0 ≡ false) ds
    → New ds m
    → New ds (insert uuid v m)
New-insert uuid v [] m other h = tt
New-insert uuid v (d ∷ ds) m other h =
    (rw (lookup-insert uuid d.0 v m, other.0) h.0, New-insert uuid v ds m other.1 h.1)

-- The loop over the devices records each GPU with its memory, and numbers the ports from `port` on.
pub read_devices-entries :
    (ds : List Gpu) (port : ℕ) (mems ports : Map String)
    → All (λ (d : Gpu). Plain d.0) ds
    → Distinct ds
    → New ds mems
    → New ds ports
    → read_devices (map entry ds ++ "" ∷ []) (pos port) mems ports
      ≡ some (mems ++ memories ds, ports ++ ports_from port ds)
unfolding read_devices
read_devices-entries [] port mems ports plain distinct h g =
    rw (append-nil mems, append-nil ports) refl
read_devices-entries (d ∷ ds) port mems ports plain distinct h g =
    let mem = show_int (pos d.1) in
    rw
      (
        is_empty-entry d,
        split-entry d plain.0,
        next_port port,
        split-entry d plain.0,
        read_devices-entries ds (port + 1) (insert d.0 mem mems)
            (insert d.0 (show_int (pos port)) ports) plain.1 distinct.1
            (New-insert d.0 mem ds mems distinct.0 h.1)
            (New-insert d.0 (show_int (pos port)) ds ports distinct.0 g.1),
        insert-new d.0 mem mems h.0,
        insert-new d.0 (show_int (pos port)) ports g.0,
        list_assoc mems ((d.0, mem) ∷ []) (memories ds),
        list_assoc ports ((d.0, show_int (pos port)) ∷ []) (ports_from (port + 1) ds),
      )
      refl
