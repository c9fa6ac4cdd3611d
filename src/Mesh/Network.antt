-- ===== src/Mesh/Network.antt =====
-- kaonic/src/comm/mesh/network.cpp: the calls that rfnet makes, and `transmit`. rfnet and the
-- interface below are parameters; radio_network_interface is one.
pub mod Laws
pub mod Callbacks
mod Tests
use kaonic_comm.Shared.{
  ℕ, suc, ◌+◌, ◌-◌, ◌^◌, Bool, Option, none, some, List, [], ◌∷◌, ◌++◌, length, resize, memcpy, ltb,
  if◌then◌else◌, ℤ, pos, negsuc, u32,
}
use kaonic_comm.Failure.{Error, ok, not_ready, is_ok}
use kaonic_comm.Radio.{Frame}
use kaonic_comm.Radio.Rf215.Device.{is_success}
use kaonic_comm.Mesh.Interface.{RadioDevice, NetworkInterface}
use kaonic_comm.Mesh.Interface

-- `network_interface`: `receive` gives the error, the frame and the interface.
pub record InterfacePort {ℓ} (I : Type ℓ) : Type ℓ where
  pub transmit : I → Frame → Error × I
  pub receive : I → Frame → Error × Frame × I

unfoldable pub interface_port {ℓ} :
    {R : Type ℓ} → RadioDevice R → InterfacePort (NetworkInterface R)
interface_port device = record {
  transmit = Interface.transmit device;
  receive = Interface.receive device;
}

-- What the calls use of a `network`; `receiver` names the receiver of the context.
pub record Network {ℓ} (I : Type ℓ) : Type ℓ where
  pub net_interface : I
  pub receiver : Option ℕ
  pub net_frame : Frame

-- The conversion of a size to `int`, of 32 bits.
abbrev pub int_of_size : ℕ → ℤ
int_of_size n = let low = u32 n in if ltb low (2 ^ 31) then pos low else negsuc (2 ^ 32 - low - 1)

module _ {ℓ} {I : Type ℓ} (port : InterfacePort I) where
  -- `tx(ctx, data, len)`, with the `len` bytes at `data`.
  unfoldable pub tx : Network I → List ℕ → ℤ × Network I
  tx n bytes =
      let frame = memcpy (resize 0 (length bytes) n.net_frame) bytes in
      let (err, i) = port.transmit n.net_interface frame in
      (if is_ok err then pos 0 else negsuc 0, record n { net_frame = frame; net_interface = i })

  -- `rx(ctx, data, max_len)`, with the memory at `data`: the return code, that memory, and the
  -- network.
  unfoldable pub rx : Network I → List ℕ → ℕ → ℤ × List ℕ × Network I
  rx n memory max_len =
      let (err, frame, i) = port.receive n.net_interface n.net_frame in
      let n' = record n { net_frame = frame; net_interface = i } in
      if is_ok err
      then (if ltb max_len (length frame)
          then (negsuc 0, memory, n')
          else (int_of_size (length frame), memcpy memory frame, n'))
      else (negsuc 0, memory, n')

module _ {ℓ} {I : Type ℓ} where
  -- `on_receive(ctx, data, len)`: the network, and the call of the receiver.
  unfoldable pub on_receive : Network I → List ℕ → Network I × List (ℕ × Frame)
  on_receive n bytes =
      let frame = memcpy (resize 0 (length bytes) n.net_frame) bytes in
      let n' = record n { net_frame = frame } in
      elim n.receiver [ none ↦ (n', []) | some r ↦ (n', (r, frame) ∷ []) ]

-- `rfnet_config`, without the pointers to the calls.
pub record RfnetConfig : Type 0 where
  pub packet_pattern : ℕ
  pub peer_count : ℕ
  pub beacon_interval : ℕ
  pub slot_duration : ℕ
  pub gap_duration : ℕ

-- `rfnet_stats`, and the `stats` of the network.
pub record Stats : Type 0 where
  pub tx_speed : ℕ
  pub rx_speed : ℕ
  pub rx_counter : ℕ
  pub tx_counter : ℕ

-- What the network uses of rfnet, over its state; `unset` is the state before `rfnet_init`.
pub record Rfnet {ℓ} (N : Type ℓ) : Type ℓ where
  pub unset : N
  pub init : RfnetConfig → N
  pub is_tx_free : N → ℤ
  pub send : N → List ℕ → ℤ × N
  pub get_stats : N → Stats
  pub reset : N → N

module _ {ℓ} {N : Type ℓ} (rfnet : Rfnet N) where
  unfoldable pub get_stats : N → Stats
  get_stats n =
      let stat = rfnet.get_stats n in
      record {
        tx_speed = stat.tx_speed;
        rx_speed = stat.rx_speed;
        rx_counter = stat.rx_counter;
        tx_counter = stat.tx_counter;
      }

  -- `~network`
  unfoldable pub destroy : N → N
  destroy n = rfnet.reset n

  -- The loop: from the state under the lock, and the states that are found each time the lock is
  -- taken again; `none` while it still waits.
  pub wait_free : N → List N → Option N
  wait_free n [] = if is_success (rfnet.is_tx_free n) then some n else none
  wait_free n (m ∷ later) =
      let again = wait_free m later in if is_success (rfnet.is_tx_free n) then some n else again

  unfoldable pub transmit : N → List N → Frame → Option (Error × N)
  unfolding wait_free
  transmit n later frame = elim (wait_free n later) [
    | none ↦ none
    | some m ↦
        let (rc, m') = rfnet.send m frame in some (if is_success rc then ok else not_ready, m')
  ]

-- A call that rfnet makes of the network while it updates: of `tx` with bytes, of `rx` with memory and
-- its size, and of `on_receive` with bytes.
pub data Callback : Type 0 where
  sends : List ℕ → Callback
  asks : List ℕ → ℕ → Callback
  hands : List ℕ → Callback

module _ {ℓ} {I : Type ℓ} (port : InterfacePort I) where
  -- The network behind a call, and the calls of the receiver.
  pub perform : Network I → Callback → Network I × List (ℕ × Frame)
  unfolding on_receive
  perform n (sends bytes) = ((tx port n bytes).1, [])
  perform n (asks memory max_len) = ((rx port n memory max_len).2, [])
  perform n (hands bytes) = on_receive n bytes

  -- `update`, with the calls that rfnet makes.
  unfoldable pub update : Network I → List Callback → Network I × List (ℕ × Frame)
  unfolding perform
  update n [] = (n, [])
  update n (c ∷ callbacks) =
      let (n', calls) = perform n c in
      let (last, rest) = update n' callbacks in (last, calls ++ rest)
