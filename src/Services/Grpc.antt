-- ===== src/Services/Grpc.antt =====
-- kaonic/src/comm/services/grpc_service.cpp: the remote calls, the queue of received frames, and
-- the stream that empties it.
pub mod Queue
pub mod Calls
pub mod Stream
pub mod Settings
pub mod Overlap
pub mod Waiting
mod Tests
use kaonic_comm.Shared.{
  ℕ, ◌+◌, Bool, true, false, not, Option, none, some, List, [], ◌∷◌, ◌++◌, length, leb,
  if◌then◌else◌, u8, u16,
}
use kaonic_comm.Failure.{Error, is_ok}
use kaonic_comm.Messages.{
  FrameMessage, FskMessage, PhyMessage, unset, ConfigurationRequest, TransmitRequest,
}
use kaonic_comm.Messages
use kaonic_comm.Radio.{
  Frame, FskConfig, PhyConfig, ofdm, fsk, RadioConfig, default_ofdm, default_config,
}
use kaonic_comm.Services.Buffers.{grpc_buf_pack, grpc_buf_unpack}
use kaonic_comm.Services.RadioPort.{RadioPort}

-- The status codes that the service returns.
pub data Status : Type 0 where
  ok failed_precondition internal aborted : Status

-- `radio` is the state of the radio service behind `_radio_service`, if that is set.
pub record GrpcService {ℓ} (S : Type ℓ) : Type ℓ where
  pub radio : Option S
  pub frame_queue : List Frame
  pub tx_frame : Frame
  pub rx_frame : Frame

abbrev pub max_queue : ℕ
max_queue = 64

-- `pop` of the queue.
abbrev pub without_front : List Frame → List Frame
without_front [] = []
without_front (f ∷ fs) = fs

-- `receive_frame` on `_frame_queue`: a full queue loses its oldest frame.
unfoldable pub push_frame : List Frame → Frame → List Frame
push_frame queue frame =
    let queue' = if leb max_queue (length queue) then without_front queue else queue in
    queue' ++ frame ∷ []

module _ {ℓ} {S : Type ℓ} where
  unfoldable pub receive_frame : GrpcService S → Frame → GrpcService S
  unfolding push_frame
  receive_frame s frame = record s { frame_queue = push_frame s.frame_queue frame }

-- `pop_frame` once its wait is over: `none` if the queue is still empty.
unfoldable pub pop_frame : List Frame → Option (Frame × List Frame)
pop_frame [] = none
pop_frame (frame ∷ queue) = some (frame, queue)

-- The modulation of a request of the type FSK: each field is cast to eight bits, but the length of
-- the preamble, which is cast to sixteen, and the flags.
unfoldable pub fsk_config : FskMessage → FskConfig
fsk_config m = record {
  bt = u8 m.bt;
  midxs = u8 m.midxs;
  midx = u8 m.midx;
  mord = u8 m.mord;
  preamble_length = u16 m.preamble_length;
  freq_inversion = m.freq_inversion;
  srate = u8 m.srate;
  pdtm = u8 m.pdtm;
  rxo = u8 m.rxo;
  rxpto = u8 m.rxpto;
  mse = u8 m.mse;
  preamble_inversion = m.preamble_inversion;
  fecs = u8 m.fecs;
  fecie = m.fecie;
  sfdt = u8 m.sfdt;
  pdt = u8 m.pdt;
  sftq = m.sftq;
  sfd32 = u8 m.sfd32;
  rawbit = m.rawbit;
  csfd1 = u8 m.csfd1;
  csfd0 = u8 m.csfd0;
  sfd0 = u8 m.sfd0;
  sfd1 = u8 m.sfd1;
  sfd = u8 m.sfd;
  dw = u8 m.dw;
  pe = m.pe;
  en = m.en;
  fskpe0 = u8 m.fskpe0;
  fskpe1 = u8 m.fskpe1;
  fskpe2 = u8 m.fskpe2;
}

pub phy_config_of : PhyMessage → PhyConfig
unfolding fsk_config
phy_config_of unset = ofdm default_ofdm
phy_config_of (Messages.PhyMessage.ofdm o) = ofdm (record { mcs = o.mcs; opt = o.opt })
phy_config_of (Messages.PhyMessage.fsk f) = fsk (fsk_config f)

-- The settings that `Configure` passes on: `tx_power` is read from the request and not stored.
unfoldable pub config_of : ConfigurationRequest → RadioConfig
unfolding phy_config_of
config_of m = record default_config {
  freq = m.freq;
  channel = u8 m.channel;
  channel_spacing = m.channel_spacing;
  phy_config = phy_config_of m.phy_config;
}

abbrev pub status_of : Error → Status
status_of err = if is_ok err then ok else internal

module _ {ℓ} {S : Type ℓ} (port : RadioPort S) where
  unfoldable pub configure : GrpcService S → ConfigurationRequest → Status × GrpcService S
  configure s m = elim s.radio [
    | none ↦ (failed_precondition, s)
    | some radio ↦
        let (err, radio') = port.configure radio (u8 m.module_index) (config_of m) in
        (status_of err, record s { radio = some radio' })
  ]

  unfoldable pub transmit : GrpcService S → TransmitRequest → Status × GrpcService S
  transmit s m = elim s.radio [
    | none ↦ (failed_precondition, s)
    | some radio ↦
        let packed = grpc_buf_pack m.frame s.tx_frame in
        let (err, radio') = port.transmit radio (u8 m.module_index) packed in
        (status_of err, record s { radio = some radio'; tx_frame = packed })
  ]

-- One pass of the loop of `ReceiveStream`: whether the call has been cancelled, the frames that
-- other threads add before the wait of `pop_frame` is over, and whether `Write` succeeds.
pub record Pass : Type 0 where
  pub cancelled : Bool
  pub arrivals : List Frame
  pub written : Bool

abbrev pub push_frames : List Frame → List Frame → List Frame
push_frames queue [] = queue
push_frames queue (f ∷ fs) = push_frames (push_frame queue f) fs

-- The result of the loop: the status (`none` while the call goes on), the frames left in the
-- queue, and the messages handed to `Write`.
pub record Streamed : Type 0 where
  pub status : Option Status
  pub queue : List Frame
  pub writes : List FrameMessage

-- The loop, with `message` the frame of the response that each pass fills anew.
unfoldable pub stream_from : List Frame → FrameMessage → List Pass → Streamed
stream_from queue message [] = record { status = none; queue = queue; writes = [] }
stream_from queue message (p ∷ passes) =
    if p.cancelled
    then record { status = some ok; queue = queue; writes = [] }
    else elim (pop_frame (push_frames queue p.arrivals)) [
      | none ↦ stream_from (push_frames queue p.arrivals) message passes
      | some (frame, queue') ↦
          let message' = grpc_buf_unpack frame message in
          let rest = stream_from queue' message' passes in
          if p.written
          then record rest { writes = message' ∷ rest.writes }
          else record { status = some aborted; queue = queue'; writes = message' ∷ [] }
    ]

-- `ReceiveStream` writes an empty response before the loop.
module _ {ℓ} {S : Type ℓ} where
  unfoldable pub receive_stream : GrpcService S → List Pass → Streamed
  unfolding stream_from
  receive_stream s passes = elim s.radio [
    | none ↦ record { status = some failed_precondition; queue = s.frame_queue; writes = [] }
    | some radio ↦
        let empty : FrameMessage = record { words = []; size = 0 } in
        let rest = stream_from s.frame_queue empty passes in
        record rest { writes = empty ∷ rest.writes }
  ]
