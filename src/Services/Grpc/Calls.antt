-- ===== src/Services/Grpc/Calls.antt =====
-- The remote call Transmit.
use kaonic_comm.Shared.{
  ℕ, ◌<◌, ◌^◌, ◌≡◌, refl, ◌↔◌, none, some, arith, length, All, IsByte, u8, if◌then◌else◌,
}
use kaonic_comm.Failure
use kaonic_comm.Failure.{Error, is_ok}
use kaonic_comm.Messages.{FrameMessage, ConfigurationRequest, TransmitRequest}
use kaonic_comm.Radio.{Frame}
use kaonic_comm.Services.Buffers.{grpc_buf_unpack}
use kaonic_comm.Services.Buffers.Laws.{grpc_buf_pack-grpc_buf_unpack}
use kaonic_comm.Services.RadioPort.{RadioPort}
use kaonic_comm.Services.Grpc.{ok, failed_precondition, internal, GrpcService, configure, transmit}

module _ {ℓ} {S : Type ℓ} (port : RadioPort S) (s : GrpcService S) where
  -- A frame that a client unpacked from bytes reaches the radio service as those bytes, for the
  -- module modulo 256, and the status is OK exactly if the radio service took it.
  pub transmit_delivers :
      (m : ℕ) (f : Frame) (old : FrameMessage) (radio : S)
      → All IsByte f
      → length f < 2 ^ 32
      → s.radio ≡ some radio
      → let (status, s') =
          transmit port s (record { module_index = m; frame = grpc_buf_unpack f old }) in
        (s'.radio ≡ some (port.transmit radio (u8 m) f).1)
        × (s'.tx_frame ≡ f)
        × ((status ≡ ok) ↔ ((port.transmit radio (u8 m) f).0 ≡ Failure.Error.ok))
  unfolding transmit is_ok
  transmit_delivers m f old radio bytes fits e =
      rw (e, grpc_buf_pack-grpc_buf_unpack f old s.tx_frame bytes fits)
        (refl, refl, status_iff (port.transmit radio (u8 m) f).0)
    where
      status_iff :
          (err : Error) → ((if is_ok err then ok else internal) ≡ ok) ↔ (err ≡ Failure.Error.ok)
      status_iff err = ground arith

  -- Without a radio service both calls fail with FAILED_PRECONDITION and change nothing.
  pub calls_without_radio :
      (c : ConfigurationRequest) (t : TransmitRequest)
      → s.radio ≡ none
      → (configure port s c ≡ (failed_precondition, s))
        × (transmit port s t ≡ (failed_precondition, s))
  unfolding configure transmit
  calls_without_radio c t e = (rw e, rw e)
