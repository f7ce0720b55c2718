-- ===== src/DeviceManager/Session/Agent.antt =====
-- A session of an agent with the device manager, from the first byte to the end of the stream.
use faas_share.Common.{
  ℕ, zero, suc, String, pos, Option, none, some, List, [], ◌∷◌, map, replicate, All, In, Nowhere,
  lookup, insert, split, first_part, count_char, ◌+++◌, show_int, read_lines, read_lines-line,
  drop_last-append, ◌≡◌, refl, subst, ◌∙◌,
}
use faas_share.Common.TextLaws.{count_char-append, count_char-show_int}
use faas_share.Kube.{found, Float64, gpu_info_key}
use faas_share.ConfigClient.RoundTrip.{items_text, Plain}
use faas_share.ConfigClient.Session.{agent_writes, heartbeats_text}
use faas_share.DeviceManager.State.{Call, annotate_node, close, not_ready, State, record_call}
use faas_share.DeviceManager.Config.{gpu_info_text, read_devices, heartbeats}
use faas_share.DeviceManager.Session.{
  World, beats_at, client_handler, greet, handle_host, handle_node,
}
use faas_share.DeviceManager.Session.Greeting.{greet-hostname}
use faas_share.DeviceManager.Session.Devices.{
  Gpu, devices, entry, memories, ports_from, Distinct, device_list-items, split-items,
  read_devices-entries,
}
use faas_share.DeviceManager.Session.Beats.{Over, last_time, heartbeats-Over}
use faas_share.DeviceManager.Session.Registered.{
  In-before, registered, Registered, register_client-Registered,
}

-- An identifier without the characters that separate.
abbrev pub IsPlainGpu : Gpu → Type 0
IsPlainGpu d = Plain d.0 × (count_char b'\n' d.0 ≡ 0)

newlines-entry : (d : Gpu) → IsPlainGpu d → count_char b'\n' (entry d) ≡ 0
unfolding count_char
newlines-entry (uuid, mem) h =
    rw
      (
        count_char-append b'\n' uuid (":" +++ show_int (pos mem)),
        count_char-append b'\n' ":" (show_int (pos mem)),
        h.1,
        count_char-show_int b'\n' (pos mem) (
          refl,
          (refl, (refl, (refl, (refl, (refl, (refl, (refl, (refl, (refl, (refl, tt)))))))))),
        ),
      )
      refl

newlines-items :
    (ds : List Gpu) → All IsPlainGpu ds → count_char b'\n' (items_text (map entry ds)) ≡ 0
unfolding count_char
newlines-items [] h = refl
newlines-items (d ∷ ds) h =
    rw
      (
        count_char-append b'\n' (entry d) ("," +++ items_text (map entry ds)),
        count_char-append b'\n' "," (items_text (map entry ds)),
        newlines-entry d h.0,
        newlines-items ds h.1,
      )
      refl

All-Plain : (ds : List Gpu) → All IsPlainGpu ds → All (λ (d : Gpu). Plain d.0) ds
All-Plain [] h = tt
All-Plain (d ∷ ds) h = (h.0.0, All-Plain ds h.1)

All-none : (ds : List Gpu) → All (λ (d : Gpu). lookup {V = String} d.0 [] ≡ none) ds
unfolding lookup
All-none [] = tt
All-none (d ∷ ds) = (refl, All-none ds)

read_lines-heartbeats : (n : ℕ) → read_lines (heartbeats_text n) ≡ replicate n "heartbeat!\n"
unfolding heartbeats_text read_lines count_char
read_lines-heartbeats zero = refl
read_lines-heartbeats (suc n) =
    rw (read_lines-line "heartbeat!" (heartbeats_text n) refl, read_lines-heartbeats n) refl

-- The lines of a session: the greeting, the devices, the heartbeats.
read_lines-agent :
    (hostname : String) (ds : List Gpu) (beats : ℕ) (text : String)
    → count_char b'\n' hostname ≡ 0
    → All IsPlainGpu ds
    → agent_writes hostname (devices ds) beats ≡ some text
    → read_lines text
      ≡ (("hostname:" +++ hostname) +++ "\n")
        ∷ (items_text (map entry ds) +++ "\n")
        ∷ replicate beats "heartbeat!\n"
unfolding agent_writes count_char
read_lines-agent hostname ds beats text plain gpus written =
    let list = items_text (map entry ds) in
    let is : some (("hostname:" +++ hostname) +++ "\n" +++ list +++ "\n" +++ heartbeats_text beats)
        ≡ some text =
      rw (← written, device_list-items ds, agent_writes) refl in
    let greeting : count_char b'\n' ("hostname:" +++ hostname) ≡ 0 =
      count_char-append b'\n' "hostname:" hostname ∙ rw plain refl in
    subst
      (λ (o : Option String). elim o [
        | none ↦ Nowhere
        | some t ↦
            read_lines t
            ≡ (("hostname:" +++ hostname) +++ "\n")
              ∷ (list +++ "\n")
              ∷ replicate beats "heartbeat!\n"
      ])
      is
      (rw
        (
          read_lines-line ("hostname:" +++ hostname) (list +++ "\n" +++ heartbeats_text beats)
              greeting,
          read_lines-line list (heartbeats_text beats) (newlines-items ds gpus),
          read_lines-heartbeats beats,
        )
        refl)

module _ (fl : Float64) (world : World) (node conn : String) (ds : List Gpu) (s : State fl) where
  abbrev pub annotation_call : Call
  annotation_call =
      annotate_node node
        (insert gpu_info_key (gpu_info_text (memories ds)) (world.annotations node))

  -- The handler of a session with these GPUs and heartbeats has returned: the node is known with
  -- the GPUs at the ports from 50051 on, its status is not ready, with the time of the last
  -- heartbeat, and the annotation with the memory of the GPUs has been written.
  abbrev pub Served : ℕ → Option (State fl) → Type 0
  Served beats none = Nowhere
  Served beats (some t) =
      (lookup node t.nodes
        ≡ some (
            registered fl (lookup node s.nodes) (ports_from 50051 ds)
              (first_part (split b':' conn))))
      × (lookup node t.statuses
          ≡ some (record {
            conn = conn;
            last_heartbeat = last_time world.now (pos 0) 0 beats;
            client_status = not_ready;
          }))
      × In annotation_call t.calls

  module _ (plain : All IsPlainGpu ds) (distinct : Distinct ds) where
    after :
        (beats : ℕ) (t : State fl)
        → Registered fl node conn
            (first_part (split b':' conn))
            (memories ds)
            (ports_from 50051 ds)
            (world.annotations node)
            s
            t
        → (r : Option (State fl)) → Over fl node conn (last_time world.now (pos 0) 0 beats) t r
        → Served beats r
    after beats t is none over = over
    after beats t is (some u) (nodes, calls, status) =
        (rw nodes is.known, status, rw calls is.annotated)

    handle_node-Served :
        (beats : ℕ)
        → Served beats (
            handle_node fl world node conn
              (first_part (split b':' conn))
              ((items_text (map entry ds) +++ "\n") ∷ replicate beats "heartbeat!\n")
              s)
    unfolding handle_node
    handle_node-Served beats =
        let ids = items_text (map entry ds) in
        let ip = first_part (split b':' conn) in
        let read : read_devices (split b',' ids) (pos 50051) [] []
            ≡ some (memories ds, ports_from 50051 ds) =
          rw (split-items ds (All-Plain ds plain)) (
            read_devices-entries ds 50051 [] [] (All-Plain ds plain) distinct (All-none ds)
              (All-none ds)) in
        let (t, done, is) =
          register_client-Registered fl node conn ip ids (memories ds) (ports_from 50051 ds)
            (world.annotations node) s read in
        let over = heartbeats-Over fl node conn world.now beats 0 t _ is.status refl in
        rw (drop_last-append ids "\n", done, handle_node)
          (after beats t is
            (heartbeats fl node (beats_at world.now 0 (replicate beats "heartbeat!\n")) t) over)

    closed :
        (beats : ℕ) (o : Option (State fl))
        → Served beats o
        → Served beats (elim o [ none ↦ none | some t ↦ some (record_call fl (close conn) t) ])
    unfolding record_call
    closed beats none h = h
    closed beats (some t) (nodes, statuses, calls) =
        (nodes, statuses, In-before annotation_call (close conn) t.calls calls)

    -- An agent and the device manager agree on their protocol. Let the host name have no colon, the
    -- identifiers of the GPUs no colon and no comma, none of them a newline, let no identifier be
    -- there twice, and let the API name the node of the pod of that host. Then `clientHandler` on what
    -- the agent writes, up to any number of heartbeats, returns: the node has the GPUs at the ports
    -- from 50051 on, in order, and else what it had; it is not ready, with the time of the last
    -- heartbeat; and its annotation lists the GPUs with their memory.
    pub client_handler-agent :
        (hostname text : String) (beats : ℕ)
        → count_char b':' hostname ≡ 0
        → count_char b'\n' hostname ≡ 0
        → world.get_pod hostname ≡ found node
        → agent_writes hostname (devices ds) beats ≡ some text
        → Served beats (client_handler fl world conn (read_lines text) s)
    unfolding handle_host client_handler
    client_handler-agent hostname text beats colon newline pod written =
        let rest = (items_text (map entry ds) +++ "\n") ∷ replicate beats "heartbeat!\n" in
        let ip = first_part (split b':' conn) in
        let greeted : greet fl world (("hostname:" +++ hostname) +++ "\n") conn rest s
            ≡ handle_node fl world node conn ip rest s =
          greet-hostname fl world hostname conn rest s colon ∙ rw (pod, handle_host) refl in
        rw (read_lines-agent hostname ds beats text newline plain written, client_handler, greeted)
          (closed beats (handle_node fl world node conn ip rest s) (handle_node-Served beats))
