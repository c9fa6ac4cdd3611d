-- ===== src/Mesh/Network/Callbacks.antt =====
-- What the receiver of a network is told of an update.
use kaonic_comm.Shared.{
  ℕ, ◌≡◌, refl, ap₂, ◌∙◌, Bool-cases, inl, inr, some, List, [], ◌∷◌, ◌++◌, map, length, ltb,
}
use kaonic_comm.Failure.{is_ok}
use kaonic_comm.Radio.{Frame}
use kaonic_comm.Mesh.Network.{
  InterfacePort, Network, tx, rx, on_receive, Callback, sends, asks, hands, perform, update,
}
use kaonic_comm.Mesh.Network.Laws.{refilled}

-- The bytes that rfnet hands over, in order.
abbrev pub frames_of : List Callback → List Frame
frames_of [] = []
frames_of (sends bytes ∷ callbacks) = frames_of callbacks
frames_of (asks memory max_len ∷ callbacks) = frames_of callbacks
frames_of (hands bytes ∷ callbacks) = bytes ∷ frames_of callbacks

on_receive-receiver {ℓ} :
    {I : Type ℓ} (n : Network I) (r : ℕ) (bytes : List ℕ)
    → n.receiver ≡ some r
    → ((on_receive n bytes).1 ≡ (r, bytes) ∷ []) × ((on_receive n bytes).0.receiver ≡ some r)
unfolding on_receive
on_receive-receiver n r bytes h = rw (h, refilled n.net_frame bytes, on_receive) (refl, h)

module _ {ℓ} {I : Type ℓ} (port : InterfacePort I) where
  rx-receiver :
      (n : Network I) (memory : List ℕ) (max_len : ℕ)
      → (rx port n memory max_len).2.receiver ≡ n.receiver
  unfolding rx
  rx-receiver n memory max_len =
      elim (Bool-cases (is_ok (port.receive n.net_interface n.net_frame).0)) [
        | inl good ↦
            elim (Bool-cases (ltb max_len (length (port.receive n.net_interface n.net_frame).1))) [
              | inl long ↦ rw (good, long) refl
              | inr fits ↦ rw (good, fits) refl
            ]
        | inr bad ↦ rw bad refl
      ]

  -- Whatever rfnet sends and asks for in between, over the one frame of the network that all calls
  -- use, the receiver is called for each frame that rfnet hands over, once, in their order and with
  -- its own bytes; the receiver stays.
  pub update-receiver :
      (n : Network I) (r : ℕ) (callbacks : List Callback)
      → n.receiver ≡ some r
      → ((update port n callbacks).1 ≡ map (λ f. (r, f)) (frames_of callbacks))
        × ((update port n callbacks).0.receiver ≡ some r)
  unfolding update perform tx on_receive
  update-receiver n r [] h = (refl, h)
  update-receiver n r (sends bytes ∷ callbacks) h =
      update-receiver (tx port n bytes).1 r callbacks h
  update-receiver n r (asks memory max_len ∷ callbacks) h =
      update-receiver (rx port n memory max_len).2 r callbacks (rx-receiver n memory max_len ∙ h)
  update-receiver n r (hands bytes ∷ callbacks) h =
      let (calls, kept) = on_receive-receiver n r bytes h in
      let (rest, last) = update-receiver (on_receive n bytes).0 r callbacks kept in
      (ap₂ ◌++◌ calls rest, last)
