-- ===== src/Services/Grpc/Tests.antt =====
-- Runs of the gRPC service, and instances of its theorems, over a radio service that logs the
-- modules that were called.
use kaonic_comm.Shared.{
  ℕ, ◌≤◌, ◌≡◌, refl, true, false, some, List, [], ◌∷◌, ◌++◌, arith, length, replicate,
}
use kaonic_comm.Messages.{FrameMessage}
use kaonic_comm.Radio.{Frame}
use kaonic_comm.Services.Grpc.{
  ok, aborted, GrpcService, push_frame, push_frames, pop_frame, Pass, receive_stream,
}
use kaonic_comm.Services.Grpc.Queue.{keep_last, push_frames-keep_last}

abbrev service : GrpcService (List ℕ)
service = record { radio = some []; frame_queue = []; tx_frame = []; rx_frame = [] }

abbrev old_message : FrameMessage
old_message = record { words = 1 ∷ 2 ∷ []; size = 8 }

abbrev small_frame : Frame
small_frame = 7 ∷ 8 ∷ 9 ∷ 10 ∷ 11 ∷ []

abbrev full_queue : List Frame
full_queue = (1 ∷ []) ∷ replicate 63 (2 ∷ [])

push_frame_drops_oldest : push_frame full_queue (3 ∷ []) ≡ replicate 63 (2 ∷ []) ++ (3 ∷ []) ∷ []
unfolding push_frame
push_frame_drops_oldest = refl

push_frames-keep_last_example :
    (push_frames full_queue ((3 ∷ []) ∷ []) ≡ keep_last 64 (full_queue ++ (3 ∷ []) ∷ []))
    × (length (push_frames full_queue ((3 ∷ []) ∷ [])) ≤ 64)
push_frames-keep_last_example = push_frames-keep_last full_queue ((3 ∷ []) ∷ []) (omega arith)

abbrev passes : List Pass
passes =
    record { cancelled = false; arrivals = small_frame ∷ []; written = true }
    ∷ record { cancelled = false; arrivals = []; written = true }
    ∷ []

-- A cancelled call ends well; a failed write ends it as aborted, and its frame is gone.
receive_stream_ends :
    ((receive_stream service
        (record { cancelled = true; arrivals = []; written = true } ∷ [])).status
      ≡ some ok)
    × ((receive_stream service
          (record { cancelled = false; arrivals = small_frame ∷ []; written = false } ∷ [])).status
        ≡ some aborted)
unfolding receive_stream pop_frame push_frame
receive_stream_ends = (refl, refl)
