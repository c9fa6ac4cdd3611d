-- ===== src/Mesh/Node/Laws.antt =====
-- What a client's frame does to the rfnet of its module, and how the nodes of a service are numbered.
use mathlib.Core.Option.{some-injective}
use kaonic_comm.Shared.{
  ℕ, zero, suc, ◌+◌, ◌%◌, ◌<◌, ◌^◌, ◌≡◌, ◌≢◌, refl, sym, ap, ◌∙◌, ◌↔◌, some, List, [], ◌∷◌, inl,
  arith, length, get_elem?, replicate, ◌==◌, if◌then◌else◌, All, IsByte, u8, pos,
}
use kaonic_comm.Failure.{Error, ok, not_ready}
use kaonic_comm.Messages.{FrameMessage}
use kaonic_comm.Radio.{Frame, RadioFrame}
use kaonic_comm.Radio.Rf215.Device.{is_success}
use kaonic_comm.Radio.Rf215.Device.Transfer.{is_success_iff}
use kaonic_comm.Mesh.Interface.{RadioDevice}
use kaonic_comm.Mesh.Network.{Rfnet}
use kaonic_comm.Mesh.Network.Laws.{IsFirstFree, transmit-IsFirstFree}
use kaonic_comm.Mesh.Identity.{gen_id}
use kaonic_comm.Mesh.Identity.Laws.{gen_id_lem}
use kaonic_comm.Mesh.Node.{Node, create, start, transmit_node, node_port}
use kaonic_comm.Services.Buffers.{grpc_buf_unpack}
use kaonic_comm.Services.Grpc.{GrpcService}
use kaonic_comm.Services.Grpc
use kaonic_comm.Services.Radio.{
  MeshConfig, RadioService, radio_port, radio_service, create_networks, start_all,
}
use kaonic_comm.Services.Radio.Dispatch.{client_frame-Reached}
use kaonic_comm.Services.Radio.Listeners.{KeepsReceiver}

pub node_port-KeepsReceiver {ℓ} :
    {R F : Type ℓ} (device : RadioDevice R) (rfnet : Rfnet F) (later : F → List F)
    (memory : RadioFrame)
    → KeepsReceiver (node_port device rfnet later memory)
unfolding node_port create start
node_port-KeepsReceiver device rfnet later memory = record {
  created = λ config radio address. refl;
  started = λ n. ground arith;
}

module _ {ℓ} {F : Type ℓ} (rfnet : Rfnet F) where
  -- The outcome of `rfnet_send`.
  abbrev pub sent_by : F → Frame → Error
  sent_by state frame = if is_success (rfnet.send state frame).0 then ok else not_ready

  sent_by_ok :
      (state : F) (frame : Frame)
      → (sent_by state frame ≡ ok) ↔ ((rfnet.send state frame).0 ≡ pos 0)
  sent_by_ok state frame = ground (arith, is_success_iff (rfnet.send state frame).0)

  -- A state that is free is the first that is.
  free_first :
      (state : F) (later : List F)
      → rfnet.is_tx_free state ≡ pos 0
      → IsFirstFree rfnet state later state
  free_first state [] free = (free, refl)
  free_first state (next ∷ later) free = inl (free, refl)

module _ {ℓ} {R F : Type ℓ} (rfnet : Rfnet F) (later : F → List F) where
  transmit_node_lem :
      (n : Node R F) (frame : Frame) (state : F)
      → IsFirstFree rfnet n.rfnet (later n.rfnet) state
      → transmit_node rfnet later n frame
        ≡ (sent_by rfnet state frame, record n { rfnet = (rfnet.send state frame).1 })
  unfolding transmit_node
  transmit_node_lem n frame state first =
      rw ((transmit-IsFirstFree rfnet n.rfnet (later n.rfnet) frame).1 state first, transmit_node)
        refl

module _ {ℓ} {R F : Type ℓ} (device : RadioDevice R) (rfnet : Rfnet F) (later : F → List F)
    (memory : RadioFrame) (g : GrpcService (RadioService (Node R F))) where
  -- Say a client sends a frame of bytes by the remote call `Transmit`, no other call of Transmit
  -- overlaps with it, and the rfnet of its module (modulo 256) is free to send when the call has the
  -- lock, so that it does not wait. Then the frame is given to that rfnet, byte for byte; the node is
  -- as before but for the state that rfnet leaves, the other modules are as before, and the client is
  -- told OK exactly if rfnet took the frame.
  pub client_frame_sent :
      (m : ℕ) (f : Frame) (old : FrameMessage) (s : RadioService (Node R F)) (n : Node R F)
      → All IsByte f
      → length f < 2 ^ 32
      → g.radio ≡ some s
      → get_elem? s.networks (u8 m) ≡ some n
      → rfnet.is_tx_free n.rfnet ≡ pos 0
      → let (status, g') =
          Grpc.transmit
            (radio_port (node_port device rfnet later memory))
            g
            (record { module_index = m; frame = grpc_buf_unpack f old }) in
        let (rc, state') = rfnet.send n.rfnet f in
        (s' : RadioService (Node R F)) × (g'.radio ≡ some s')
        × ((j : ℕ)
            → get_elem? s'.networks j
              ≡ (if j == u8 m then some (record n { rfnet = state' }) else get_elem? s.networks j))
        × ((status ≡ Grpc.Status.ok) ↔ (rc ≡ pos 0))
  unfolding node_port
  client_frame_sent m f old s n bytes fits e h free =
      let (s', r, reached, status) =
        client_frame-Reached (node_port device rfnet later memory) g m f old s n bytes fits e h in
      let sent =
        transmit_node_lem rfnet later n f n.rfnet (free_first rfnet n.rfnet (later n.rfnet) free) in
      let same = sent_by_ok rfnet n.rfnet f in
      (
        s',
        r,
        λ j.
            reached.1 j
            ∙ ap (λ (p : Error × Node R F). if j == u8 m then some p.1 else get_elem? s.networks j)
                sent,
        (
          λ q. same.0 (sym (ap (λ (p : Error × Node R F). p.0) sent) ∙ status.0 q),
          λ q. status.1 (ap (λ (p : Error × Node R F). p.0) sent ∙ same.1 q),
        ),
      )

module _ {ℓ} {R F : Type ℓ} (device : RadioDevice R) (rfnet : Rfnet F) (later : F → List F)
    (memory : RadioFrame) where
  -- The number of a node among those made in the loop of the constructor.
  created_id_base :
      (config : MeshConfig) (i : ℕ) (radios : List R) (bs : List ℕ) (m : ℕ) (x : Node R F)
      → let port = node_port device rfnet later memory in
        get_elem? (start_all port (create_networks port config i radios bs)) m ≡ some x
        → x.config.id_base ≡ i + m + 1
  unfolding create_networks start_all node_port create start
  created_id_base config i [] bs m x h = cc
  created_id_base config i (r ∷ radios) bs zero x h =
      sym (ap (λ (n : Node R F). n.config.id_base) (some-injective _ _ h)) ∙ omega arith
  created_id_base config i (r ∷ radios) bs (suc m) x h =
      created_id_base config (i + 1) radios bs m x h ∙ omega arith

  -- Two networks of one service have different node ids, if there are no more than 15 of them,
  -- whatever `generate_id` gives for each of them, and whatever the width of the ids.
  pub ids_differ :
      (config : MeshConfig) (radios : List R) (a b : ℕ) (x y : Node R F)
      (k old generated generated' : ℕ)
      → let s = radio_service (node_port device rfnet later memory) config radios in
        get_elem? s.networks a ≡ some x
        → get_elem? s.networks b ≡ some y
        → a < 15
        → b < 15
        → a ≢ b
        → gen_id k (some old) generated x.config.id_base
          ≢ gen_id k (some old) generated' y.config.id_base
  unfolding radio_service
  ids_differ config radios a b x y k old generated generated' p q ha hb ne e =
      let bs = replicate (length radios) 0 in
      let base = created_id_base config 0 radios bs a x p in
      let base' = created_id_base config 0 radios bs b y q in
      let (id, i, low, high, small) = gen_id_lem k old generated x.config.id_base (omega arith) in
      let (id', i', low', high', small') =
        gen_id_lem k old generated' y.config.id_base (omega arith) in
      let same : id ≡ id' = some-injective _ _ (sym i ∙ e ∙ i') in
      let bases = sym low ∙ ap (λ (n : ℕ). n % 16) same ∙ low' in
      ne (omega (arith, base, base', bases))
