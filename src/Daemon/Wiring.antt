-- ===== src/Daemon/Wiring.antt =====
-- The network of the daemon and its way to the listener, which the calls of clients leave alone.
use mathlib.Core.Option.{some-injective}
use kaonic_comm.Shared.{
  ℕ, ◌≡◌, refl, sym, ap, ◌∙◌, inl, inr, some, List, [], ◌∷◌, length, get_elem?, set, length-set,
  get_elem?-set, lt_of_get_elem?, leb, ◌==◌, Bool-cases, Option-cases,
}
use kaonic_comm.Radio.{Frame, RadioFrame, RadioConfig}
use kaonic_comm.Mesh.Interface.{RadioDevice}
use kaonic_comm.Mesh.Network.{Network, Rfnet}
use kaonic_comm.Mesh.Network
use kaonic_comm.Mesh.Node.{Node, create, start, transmit_node, node_port}
use kaonic_comm.Mesh.Node
use kaonic_comm.Services.Radio.{
  NetworkPort, RadioService, radio_port, radio_service, create_networks, start_all, attach_listener,
  attach_each,
}
use kaonic_comm.Services.Radio
use kaonic_comm.Daemon.{grpc_listener}

-- One network, which hands its frames to the one broadcaster, whose one listener is that of the gRPC
-- service.
pub record IsWired {ℓ} {R F : Type ℓ} (s : RadioService (Node R F)) : Type ℓ where
  pub heard_by : s.heap ≡ (grpc_listener ∷ []) ∷ []
  pub single : length s.networks ≡ 1
  pub hands_over :
      (j : ℕ) (n : Node R F) → get_elem? s.networks j ≡ some n → n.network.receiver ≡ some 0

module _ {ℓ} {R F : Type ℓ} where
  pub set-IsWired :
      (s : RadioService (Node R F)) (m : ℕ) (n n' : Node R F)
      → IsWired s
      → get_elem? s.networks m ≡ some n
      → n'.network.receiver ≡ n.network.receiver
      → IsWired (record s { networks = set s.networks m n' })
  set-IsWired s m n n' w h e = record {
    heard_by = w.heard_by;
    single = length-set s.networks m n' ∙ w.single;
    hands_over = λ j x g. elim (Bool-cases (j == m)) [
      | inl own ↦
          let same : n' ≡ x = some-injective _ _ (
            sym (rw own at (get_elem?-set s.networks m j n' (lt_of_get_elem? s.networks m h)))
            ∙ g) in
          sym (ap (λ (y : Node R F). y.network.receiver) same) ∙ e ∙ w.hands_over m n h
      | inr other ↦
          w.hands_over j x (
            sym (rw other at (get_elem?-set s.networks m j n' (lt_of_get_elem? s.networks m h)))
            ∙ g)
    ];
  }

module _ {ℓ} {R F : Type ℓ} (net : NetworkPort R (Node R F)) where
  -- What a network keeps when the service calls it.
  pub record KeepsNetwork : Type ℓ where
    pub configured :
        (n : Node R F) (c : RadioConfig)
        → (net.configure n c).1.network.receiver ≡ n.network.receiver
    pub transmitted :
        (n : Node R F) (f : Frame) → (net.transmit n f).1.network.receiver ≡ n.network.receiver

  module _ (k : KeepsNetwork) (s : RadioService (Node R F)) (m : ℕ) (w : IsWired s) where
    pub configure-IsWired : (c : RadioConfig) → IsWired (Radio.configure net s m c).1
    unfolding Radio.configure
    configure-IsWired c = elim (Bool-cases (leb (length s.networks) m)) [
      | inl out ↦ rw (out, Radio.configure) w
      | inr within ↦ elim (Option-cases (get_elem? s.networks m)) [
        | inl missing ↦ rw (within, missing, Radio.configure) w
        | inr (n, h) ↦ rw (within, h, Radio.configure) (set-IsWired s m n _ w h (k.configured n c))
      ]
    ]

    pub transmit-IsWired : (f : Frame) → IsWired (Radio.transmit net s m f).1
    unfolding Radio.transmit
    transmit-IsWired f = elim (Bool-cases (leb (length s.networks) m)) [
      | inl out ↦ rw (out, Radio.transmit) w
      | inr within ↦ elim (Option-cases (get_elem? s.networks m)) [
        | inl missing ↦ rw (within, missing, Radio.transmit) w
        | inr (n, h) ↦ rw (within, h, Radio.transmit) (set-IsWired s m n _ w h (k.transmitted n f))
      ]
    ]

module _ {ℓ} {R F : Type ℓ} (device : RadioDevice R) (rfnet : Rfnet F) (later : F → List F)
    (memory : RadioFrame) where
  pub node_port-KeepsNetwork : KeepsNetwork (node_port device rfnet later memory)
  unfolding node_port Node.configure transmit_node
  node_port-KeepsNetwork = record {
    configured = λ n c. refl;
    transmitted = λ n f. elim (Option-cases (Network.transmit rfnet n.rfnet (later n.rfnet) f)) [
      | inl e ↦ rw (e, transmit_node) refl
      | inr (p, e) ↦ rw (e, transmit_node) refl
    ];
  }
