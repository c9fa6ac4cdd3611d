-- ===== src/Daemon/Air.antt =====
-- From the air to the queue of the gRPC service, while clients use the daemon.
use kaonic_comm.Services.Grpc.Queue.{take_one, run_queue}
use kaonic_comm.Services.Grpc.Queue
use kaonic_comm.Services.Grpc.Stream.{arrive_all, run_queue-arrive_all}
use mathlib.Core.Option.{some-injective, some-ne-none}
use kaonic_comm.Shared.{
  ℕ, zero, suc, ◌≡◌, refl, sym, ap, ◌∙◌, Bool, true, Option, none, some, List, [], ◌∷◌, map,
  List-cases, inl, inr, arith, length, get_elem?, get_elem?-some, set,
}
use Prim.Native.String.{String}
use kaonic_comm.Daemon.Machine.{select_machine_config}
use kaonic_comm.Radio.Rf215.Bus.{Board}
use kaonic_comm.Drivers.Spi.{System, Spi}
use kaonic_comm.Radio.{Frame, RadioFrame}
use kaonic_comm.Radio.Rf215.Device.{Driver, Rf215Radio}
use kaonic_comm.Mesh.Interface.{rf215_device}
use kaonic_comm.Mesh.Network.{Rfnet, Callback, interface_port}
use kaonic_comm.Mesh.Network.Callbacks.{frames_of, update-receiver}
use kaonic_comm.Mesh.Receiver
use kaonic_comm.Mesh.Node.{Node, create, start, update_node, node_port}
use kaonic_comm.Services.Grpc.{GrpcService, push_frame, push_frames, receive_frame, pop_frame}
use kaonic_comm.Services.Grpc
use kaonic_comm.Services.Radio.{
  RadioService, radio_service, create_networks, start_all, attach_listener, attach_each,
}
use kaonic_comm.Daemon.{
  Chip, Daemon, grpc_listener, mesh_config, serve, deliver, broadcast, update_module, Event,
  configured, transmitted, streamed, updated, handle, handle_all, create_radio, main,
}
use kaonic_comm.Daemon.Wiring.{
  IsWired, set-IsWired, configure-IsWired, transmit-IsWired, node_port-KeepsNetwork,
}

-- The frames of the one receiver reach the queue in their order.
delivered :
    {W F : Type 0} (alive : ℕ → Bool) (frames : List Frame)
    → alive grpc_listener ≡ true
    → (d : Daemon W F)
    → deliver d (broadcast alive ((grpc_listener ∷ []) ∷ []) (map (λ f. (0, f)) frames))
      ≡ record d { frame_queue = push_frames d.frame_queue frames }
unfolding deliver broadcast Receiver.on_receive receive_frame
delivered alive [] a d = refl
delivered alive (f ∷ frames) a d = rw (a, deliver) (delivered alive frames a (receive_frame d f))

module _ {W F : Type 0} where
  -- The daemon has a service, which is wired.
  abbrev pub IsWiredDaemon : Daemon W F → Type 0
  IsWiredDaemon d =
      (s : RadioService (Node (Rf215Radio (Chip W)) F)) × (d.radio ≡ some s) × IsWired s

  module _ (driver : Driver (Chip W)) (alive : ℕ → Bool) (d : Daemon W F)
      (s : RadioService (Node (Rf215Radio (Chip W)) F)) (w : IsWired s) (e : d.radio ≡ some s)
      (m : ℕ) (state : F) (callbacks : List Callback) where
    update_module_served :
        (n : Node (Rf215Radio (Chip W)) F)
        → get_elem? s.networks m ≡ some n
        → alive grpc_listener ≡ true
        → let n' = (update_node (rf215_device driver) n state callbacks).0 in
          update_module driver alive d m state callbacks ≡ record d {
            radio = some (record s { networks = set s.networks m n' });
            frame_queue = push_frames d.frame_queue (frames_of callbacks);
          }
    unfolding update_module update_node
    update_module_served n h a =
        let told =
          update-receiver (interface_port (rf215_device driver)) n.network 0 callbacks
            (w.hands_over m n h) in
        simp (e, h, w.heard_by, told.0, update_module) (delivered alive (frames_of callbacks) a _)

    update_module_elsewhere :
        get_elem? s.networks m ≡ none → update_module driver alive d m state callbacks ≡ d
    unfolding update_module
    update_module_elsewhere h = simp (e, h, update_module)

single_beyond {ℓ} : {A : Type ℓ} (xs : List A) (m : ℕ) → length xs ≡ 1 → get_elem? xs (suc m) ≡ none
single_beyond [] m h = refl
single_beyond (x ∷ []) m h = refl
single_beyond (x ∷ y ∷ xs) m h = absurd (omega (arith, h))

-- What the events mean for the queue of the gRPC service: the frames that they bring to module 0
-- arrive, and a stream takes one out.
abbrev pub on_queue : {F : Type 0} → List (Event F) → List Queue.Event
on_queue [] = []
on_queue (configured m ∷ events) = on_queue events
on_queue (transmitted m ∷ events) = on_queue events
on_queue (streamed ∷ events) = take_one ∷ on_queue events
on_queue (updated zero state callbacks ∷ events) =
    arrive_all (frames_of callbacks) (on_queue events)
on_queue (updated (suc m) state callbacks ∷ events) = on_queue events

-- The queue behind these.
abbrev pub left_of : List Frame → List Queue.Event → List Frame
left_of queue es = (run_queue queue es).1

module _ {W F : Type 0} (driver : Driver (Chip W)) (rfnet : Rfnet F) (later : F → List F)
    (memory : RadioFrame) (alive : ℕ → Bool) (a : alive grpc_listener ≡ true) where
  -- The daemon stays wired, and its queue follows the event.
  handle-IsWiredDaemon :
      (d : Daemon W F) (event : Event F) (events : List (Event F))
      → IsWiredDaemon d
      → IsWiredDaemon (handle driver rfnet later memory alive d event)
        × (left_of (handle driver rfnet later memory alive d event).frame_queue (on_queue events)
            ≡ left_of d.frame_queue (on_queue (event ∷ events)))
  unfolding handle update_node Grpc.configure Grpc.transmit pop_frame
  handle-IsWiredDaemon d (configured m) events (s, e, w) =
      let keeps = node_port-KeepsNetwork (rf215_device driver) rfnet later memory in
      rw (e, Grpc.configure)
        (
          (
            _,
            refl,
            configure-IsWired (node_port (rf215_device driver) rfnet later memory) keeps s _ w _,
          ),
          refl,
        )
  handle-IsWiredDaemon d (transmitted m) events (s, e, w) =
      let keeps = node_port-KeepsNetwork (rf215_device driver) rfnet later memory in
      rw (e, Grpc.transmit)
        (
          (
            _,
            refl,
            transmit-IsWired (node_port (rf215_device driver) rfnet later memory) keeps s _ w _,
          ),
          refl,
        )
  handle-IsWiredDaemon d streamed events (s, e, w) = elim (List-cases d.frame_queue) [
    | inl none_left ↦ rw (none_left, handle) ((s, e, w), rw none_left refl)
    | inr (f, rest, front) ↦ rw (front, handle) ((s, e, w), refl)
  ]
  handle-IsWiredDaemon d (updated zero state callbacks) events (s, e, w) =
      let (n, h) = get_elem?-some s.networks 0 (omega (arith, w.single)) in
      let told =
        update-receiver (interface_port (rf215_device driver)) n.network 0 callbacks
          (w.hands_over 0 n h) in
      rw (update_module_served driver alive d s w e 0 state callbacks n h a) (
        (_, refl, set-IsWired s 0 n _ w h (told.1 ∙ sym (w.hands_over 0 n h))),
        sym (
            ap (λ (r : List Frame × List Frame). r.1)
              (run_queue-arrive_all d.frame_queue (frames_of callbacks) (on_queue events))),
      )
  handle-IsWiredDaemon d (updated (suc m) state callbacks) events (s, e, w) =
      rw
        (update_module_elsewhere driver alive d s w e (suc m) state callbacks
          (single_beyond s.networks m w.single))
        ((s, e, w), refl)

  pub handle_all-IsWiredDaemon :
      (d : Daemon W F) (events : List (Event F))
      → IsWiredDaemon d
      → IsWiredDaemon (handle_all driver rfnet later memory alive d events)
        × ((handle_all driver rfnet later memory alive d events).frame_queue
            ≡ left_of d.frame_queue (on_queue events))
  unfolding handle_all
  handle_all-IsWiredDaemon d [] w = (w, refl)
  handle_all-IsWiredDaemon d (event ∷ events) w =
      let (kept, queue) = handle-IsWiredDaemon d event events w in
      let (all_kept, all_queue) =
        handle_all-IsWiredDaemon (handle driver rfnet later memory alive d event) events kept in
      (all_kept, all_queue ∙ queue)

module _ {W F : Type 0} (driver : Driver (Chip W)) (rfnet : Rfnet F) (later : F → List F)
    (memory : RadioFrame) where
  first_hands_over :
      (r : Rf215Radio (Chip W)) (j : ℕ) (n : Node (Rf215Radio (Chip W)) F)
      → let port = node_port (rf215_device driver) rfnet later memory in
        get_elem? (start_all port (create_networks port mesh_config 0 (r ∷ []) (0 ∷ []))) j ≡ some n
        → n.network.receiver ≡ some 0
  unfolding create_networks start_all node_port create start
  first_hands_over r zero n h =
      sym (ap (λ (x : Node (Rf215Radio (Chip W)) F). x.network.receiver) (some-injective _ _ h))
  first_hands_over r (suc j) n h = absurd (some-ne-none _ (sym h))

  serve-IsWiredDaemon :
      (r : Rf215Radio (Chip W)) → IsWiredDaemon (serve driver rfnet later memory (r ∷ []))
  unfolding serve radio_service attach_listener create_networks start_all attach_each node_port
      create start
  serve-IsWiredDaemon r = (
    _,
    refl,
    record { heard_by = refl; single = refl; hands_over = λ j n h. first_hands_over r j n h },
  )

  module _ (alive : ℕ → Bool) (sys : System W) (board : Board W) where
    -- The daemon stays wired, and its queue follows the frames.
    pub main_served :
        (machine : Option String) (s : Spi) (w : W) (r : Rf215Radio (Chip W))
        (events : List (Event F))
        → create_radio sys board driver s w (select_machine_config machine).rfa_config 11 ≡ some r
        → alive grpc_listener ≡ true
        → let d =
            handle_all driver rfnet later memory alive
              (main driver rfnet later memory sys board machine s w)
              events in
          IsWiredDaemon d × (d.frame_queue ≡ left_of [] (on_queue events))
    unfolding main serve
    main_served machine s w r events up a =
        rw (up, main)
          (handle_all-IsWiredDaemon driver rfnet later memory alive a _ events
            (serve-IsWiredDaemon r))

    -- Say the one radio of `main` comes up, and its listener is alive. Whatever calls of Configure and
    -- Transmit, calls of pop_frame by streams of clients, and updates of networks then follow, in
    -- whatever order, and whatever rfnet does in the updates, the queue of the gRPC service is what
    -- the empty queue becomes when the frames that rfnet handed over on module 0 arrive and the
    -- streams take one each time, in this order: no call puts a frame into it, and only streams take
    -- one out.
    pub main-push_frames :
        (machine : Option String) (s : Spi) (w : W) (r : Rf215Radio (Chip W))
        (events : List (Event F))
        → create_radio sys board driver s w (select_machine_config machine).rfa_config 11 ≡ some r
        → alive grpc_listener ≡ true
        → (handle_all driver rfnet later memory alive
            (main driver rfnet later memory sys board machine s w)
            events).frame_queue
          ≡ left_of [] (on_queue events)
    main-push_frames machine s w r events up a = (main_served machine s w r events up a).1
