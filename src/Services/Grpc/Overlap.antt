-- ===== src/Services/Grpc/Overlap.antt =====
-- Calls of grpc_service that run at the same time: the server handles each on a thread of its own,
-- and they share `_tx_frame` and `_rx_frame`, which no lock guards. A schedule names the call that
-- takes the next step.
pub mod Transmits
pub mod Receives
mod Tests
use kaonic_comm.Shared.{
  ℕ, Bool, Option, none, some, List, [], ◌∷◌, ◌++◌, get_elem?, set, if◌then◌else◌, u8,
}
use kaonic_comm.Messages.{FrameMessage, TransmitRequest}
use kaonic_comm.Radio.{Frame}
use kaonic_comm.Services.Buffers.{grpc_buf_pack, grpc_buf_unpack}
use kaonic_comm.Services.RadioPort.{RadioPort}
use kaonic_comm.Services.Grpc.{
  GrpcService, Status, failed_precondition, status_of, pop_frame, transmit,
}

-- A call of `Transmit`: not begun, behind `grpc_buf_pack`, or returned.
pub data Call : Type 0 where
  waiting packed : TransmitRequest → Call
  answered : Status → Call

pub record Server {ℓ} (S : Type ℓ) : Type ℓ where
  pub service : GrpcService S
  pub calls : List Call

module _ {ℓ} {S : Type ℓ} where
  -- A call returns.
  abbrev pub answer : Server S → ℕ → Status → Server S
  answer v c status = record v { calls = set v.calls c (answered status) }

  -- `Transmit` up to and with `grpc_buf_pack`.
  pub pack : Server S → ℕ → TransmitRequest → Server S
  pack v c m = elim v.service.radio [
    | none ↦ answer v c failed_precondition
    | some radio ↦ record {
      service = record v.service { tx_frame = grpc_buf_pack m.frame v.service.tx_frame };
      calls = set v.calls c (packed m);
    }
  ]

module _ {ℓ} {S : Type ℓ} (port : RadioPort S) where
  -- The rest of `Transmit`: the frame is what `_tx_frame` holds by now.
  pub send : Server S → ℕ → TransmitRequest → Server S
  send v c m = elim v.service.radio [
    | none ↦ answer v c failed_precondition
    | some radio ↦
        let (err, radio') = port.transmit radio (u8 m.module_index) v.service.tx_frame in
        answer (record v { service = record v.service { radio = some radio' } }) c (status_of err)
  ]

  -- The next step of a call.
  unfoldable pub advance : Server S → ℕ → Server S
  unfolding pack send
  advance v c = elim (get_elem? v.calls c) [
    | none ↦ v
    | some (waiting m) ↦ pack v c m
    | some (packed m) ↦ send v c m
    | some (answered status) ↦ v
  ]

  unfoldable pub run : Server S → List ℕ → Server S
  run v [] = v
  run v (c ∷ schedule) = run (advance v c) schedule

-- A loop of `ReceiveStream`, with `frame` of its response: before `pop_frame`, or behind it.
pub data Stream : Type 0 where
  polling popped : FrameMessage → Stream

-- The shared part: `_frame_queue`, `_rx_frame`, and the streams.
pub record Streams : Type 0 where
  pub queue : List Frame
  pub rx_frame : Frame
  pub streams : List Stream

-- `pop_frame(_rx_frame, …)` in the loop `c`; an empty queue leaves the loop where it is.
pub take_frame : Streams → ℕ → FrameMessage → Streams
take_frame v c message = elim (pop_frame v.queue) [
  | none ↦ v
  | some (frame, queue) ↦ record {
    queue = queue;
    rx_frame = frame;
    streams = set v.streams c (popped message);
  }
]

-- The next step of a loop, and the message that it writes.
unfoldable pub advance_stream : Streams → ℕ → Streams × List FrameMessage
unfolding take_frame pop_frame
advance_stream v c = elim (get_elem? v.streams c) [
  | none ↦ (v, [])
  | some (polling message) ↦ (take_frame v c message, [])
  | some (popped message) ↦
      let message' = grpc_buf_unpack v.rx_frame message in
      (record v { streams = set v.streams c (polling message') }, message' ∷ [])
]

unfoldable pub run_streams : Streams → List ℕ → Streams × List FrameMessage
run_streams v [] = (v, [])
run_streams v (c ∷ schedule) =
    let (v', writes) = advance_stream v c in
    let (last, rest) = run_streams v' schedule in (last, writes ++ rest)
