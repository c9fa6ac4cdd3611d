-- ===== src/Services/Radio/Dispatch.antt =====
-- Which network a call of the radio service reaches, also when it comes from a remote client.
use kaonic_comm.Shared.{
  ℕ, ◌<◌, ◌≤◌, ◌^◌, ◌≡◌, refl, some, arith, length, get_elem?, get_elem?-set, lt_of_get_elem?, leb,
  ◌==◌, if◌then◌else◌, All, IsByte, u8, false, ◌↔◌,
}
use kaonic_comm.Failure.{Error, ok, invalid_arg}
use kaonic_comm.Radio.{Frame, RadioConfig, default_config}
use kaonic_comm.Messages.{FrameMessage}
use kaonic_comm.Services.Buffers.{grpc_buf_unpack}
use kaonic_comm.Services.Grpc.{GrpcService}
use kaonic_comm.Services.Grpc
use kaonic_comm.Services.Grpc.Calls.{transmit_delivers}
use kaonic_comm.Services.Radio.{NetworkPort, RadioService, configure, transmit, radio_port}

-- A call of the network `m` has answered: its error is returned, and that network alone is
-- replaced.
abbrev pub Reached {ℓ} :
    {N : Type ℓ} → RadioService N → ℕ → Error × N → Error × RadioService N → Type ℓ
Reached {N} s m (err, n) (err', s') =
    (err' ≡ err)
    × ((j : ℕ) → get_elem? s'.networks j ≡ (if j == m then some n else get_elem? s.networks j))
    × (s'.heap ≡ s.heap)
    × (s'.broadcasters ≡ s.broadcasters)

module _ {ℓ} {R N : Type ℓ} (net : NetworkPort R N) (s : RadioService N) (m : ℕ) where
  module_in_range : (n : N) → get_elem? s.networks m ≡ some n → leb (length s.networks) m ≡ false
  module_in_range n h = ground (arith, lt_of_get_elem? s.networks m h)

  -- For a module that is there, `configure` and `transmit` return what the network of the module
  -- returns, and replace that network alone.
  pub calls-Reached :
      (c : RadioConfig) (f : Frame) (n : N)
      → get_elem? s.networks m ≡ some n
      → Reached s m (net.configure n c) (configure net s m c)
        × Reached s m (net.transmit n f) (transmit net s m f)
  unfolding configure transmit
  calls-Reached c f n h =
      let replaced =
        λ (n' : N) (j : ℕ). get_elem?-set s.networks m j n' (lt_of_get_elem? s.networks m h) in
      (
        rw (module_in_range n h, h) (refl, replaced _, refl, refl),
        rw (module_in_range n h, h) (refl, replaced _, refl, refl),
      )

  -- For a module that is not there both return `invalid_arg` and change nothing.
  pub calls_out_of_range :
      (c : RadioConfig) (f : Frame)
      → length s.networks ≤ m
      → (configure net s m c ≡ (invalid_arg, s)) × (transmit net s m f ≡ (invalid_arg, s))
  unfolding configure transmit
  calls_out_of_range c f h = ground arith

module _ {ℓ} {R N : Type ℓ} (net : NetworkPort R N) (g : GrpcService (RadioService N)) where
  -- A frame of bytes that a client sends by the remote call `Transmit` is transmitted, byte for
  -- byte, by the network of the module (modulo 256), and by no other; the client is told OK
  -- exactly if that network took it.
  pub client_frame-Reached :
      (m : ℕ) (f : Frame) (old : FrameMessage) (s : RadioService N) (n : N)
      → All IsByte f
      → length f < 2 ^ 32
      → g.radio ≡ some s
      → get_elem? s.networks (u8 m) ≡ some n
      → let (status, g') =
          Grpc.transmit
            (radio_port net)
            g
            (record { module_index = m; frame = grpc_buf_unpack f old }) in
        (s' : RadioService N) × (g'.radio ≡ some s')
        × Reached s (u8 m) (net.transmit n f) ((net.transmit n f).0, s')
        × ((status ≡ Grpc.Status.ok) ↔ ((net.transmit n f).0 ≡ ok))
  client_frame-Reached m f old s n bytes fits e h =
      let sent = transmit_delivers (radio_port net) g m f old s bytes fits e in
      let reached = (calls-Reached net s (u8 m) default_config f n h).1 in
      (
        (transmit net s (u8 m) f).1,
        sent.0,
        (refl, reached.1, reached.2, reached.3),
        rw (← reached.0) sent.2,
      )
