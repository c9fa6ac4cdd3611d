-- ===== src/Services/Grpc/Overlap/Tests.antt =====
-- Instances of the theorems on calls that run at the same time, with a port that logs the frames.
use kaonic_comm.Shared.{ℕ, zero, suc, ◌≡◌, ◌≢◌, refl, some, List, [], ◌∷◌, arith}
use kaonic_comm.Failure
use kaonic_comm.Messages.{FrameMessage, TransmitRequest}
use kaonic_comm.Radio.{Frame}
use kaonic_comm.Services.Buffers.{grpc_buf_unpack}
use kaonic_comm.Services.RadioPort.{RadioPort}
use kaonic_comm.Services.Grpc.Overlap.{waiting, Server, run, polling, Streams, run_streams}
use kaonic_comm.Services.Grpc.Stream.{received}
use kaonic_comm.Services.Grpc.Overlap.Transmits.{overlapping_calls}
use kaonic_comm.Services.Grpc.Overlap.Receives.{
  IsPolling, overlapping_streams, run_streams-one_by_one,
}

abbrev log_port : RadioPort (List (ℕ × Frame))
log_port = record {
  configure = λ s m c. (Failure.Error.ok, s);
  transmit = λ s m f. (Failure.Error.ok, (m, f) ∷ s);
}

abbrev blank : FrameMessage
blank = record { words = []; size = 0 }

abbrev request : ℕ → Frame → TransmitRequest
request m f = record { module_index = m; frame = grpc_buf_unpack f blank }

abbrev two_calls : Server (List (ℕ × Frame))
two_calls = record {
  service = record { radio = some []; frame_queue = []; tx_frame = []; rx_frame = [] };
  calls = waiting (request 0 (1 ∷ 2 ∷ [])) ∷ waiting (request 1 (3 ∷ [])) ∷ [];
}

zero-ne-one : ◌≢◌ {A = ℕ} 0 1
zero-ne-one e = omega arith

-- Of the frames 1 2 and 3, the second is transmitted for both modules.
overlapping_calls_example :
    ((run log_port two_calls (0 ∷ 1 ∷ 0 ∷ 1 ∷ [])).service.radio
      ≡ some ((1, 3 ∷ []) ∷ (0, 3 ∷ []) ∷ []))
    × ((run log_port two_calls (0 ∷ 1 ∷ 1 ∷ 0 ∷ [])).service.radio
        ≡ some ((0, 3 ∷ []) ∷ (1, 3 ∷ []) ∷ []))
overlapping_calls_example =
    overlapping_calls log_port two_calls 0 1 0 1 (1 ∷ 2 ∷ []) (3 ∷ []) blank blank [] zero-ne-one
      refl refl refl (omega arith) (omega arith)

abbrev two_streams : Streams
two_streams = record {
  queue = (1 ∷ 2 ∷ []) ∷ (3 ∷ []) ∷ [];
  rx_frame = [];
  streams = polling blank ∷ polling blank ∷ [];
}

two_streams-IsPolling : IsPolling two_streams
two_streams-IsPolling zero h = (blank, refl)
two_streams-IsPolling (suc zero) h = (blank, refl)
two_streams-IsPolling (suc (suc c)) h = absurd (omega arith)

-- Of two frames, the second is written to both clients.
streams_overlap :
    let (last, writes) = run_streams two_streams (0 ∷ 1 ∷ 0 ∷ 1 ∷ []) in
    (received writes ≡ (3 ∷ []) ∷ (3 ∷ []) ∷ []) × (last.queue ≡ [])
streams_overlap =
    overlapping_streams two_streams 0 1 (1 ∷ 2 ∷ []) (3 ∷ []) [] blank blank zero-ne-one refl refl
      refl (omega arith)

streams_in_turn :
    let (last, writes) = run_streams two_streams (1 ∷ 1 ∷ 0 ∷ 0 ∷ 1 ∷ 1 ∷ []) in
    (received writes ≡ (1 ∷ 2 ∷ []) ∷ (3 ∷ []) ∷ []) × (last.queue ≡ [])
streams_in_turn =
    run_streams-one_by_one (1 ∷ 0 ∷ 1 ∷ []) two_streams ((1 ∷ 2 ∷ []) ∷ (3 ∷ []) ∷ [])
      two_streams-IsPolling (omega arith) refl (omega arith)
