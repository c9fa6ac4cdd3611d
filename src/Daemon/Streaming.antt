-- ===== src/Daemon/Streaming.antt =====
-- From the air to a client: what ReceiveStream writes of the frames that the daemon has heard.
use Prim.Native.String.{String}
use kaonic_comm.Shared.{
  ℕ, zero, suc, ◌+◌, ◌≤◌, ◌≡◌, refl, sym, ap, ◌∙◌, Bool, true, false, Option, none, some, List, [],
  ◌∷◌, ◌++◌, append-nil, arith, length, All, map,
}
use kaonic_comm.Radio.{Frame, RadioFrame}
use kaonic_comm.Radio.Rf215.Device.{Driver, Rf215Radio}
use kaonic_comm.Radio.Rf215.Bus.{Board}
use kaonic_comm.Drivers.Spi.{System, Spi}
use kaonic_comm.Mesh.Network.{Rfnet}
use kaonic_comm.Mesh.Network.Callbacks.{frames_of}
use kaonic_comm.Services.Buffers.{grpc_buf_pack}
use kaonic_comm.Services.Grpc.{GrpcService, max_queue, push_frames, Pass, receive_stream}
use kaonic_comm.Services.Grpc.Queue.{
  push_frames_all, take_one, run_queue, run_queue_lossless, arrivals,
}
use kaonic_comm.Services.Grpc.Queue
use kaonic_comm.Services.Grpc.Stream.{
  IsSendable, IsOpen, received, arriving, arrive_all, events, run_queue-arrive_all,
  stream_from-Follows,
}
use kaonic_comm.Daemon.{
  Chip, grpc_listener, create_radio, main, Event, configured, transmitted, streamed, updated,
  handle_all,
}
use kaonic_comm.Daemon.Machine.{select_machine_config}
use kaonic_comm.Daemon.Air.{on_queue, left_of, main_served, handle_all-IsWiredDaemon}

-- No stream takes a frame.
abbrev pub NoStream : {F : Type 0} → Event F → Type 0
NoStream (configured m) = Unit
NoStream (transmitted m) = Unit
NoStream streamed = ⊥
NoStream (updated m state callbacks) = Unit

-- The frames that the events bring to module 0.
abbrev pub heard_on_0 : {F : Type 0} → List (Event F) → List Frame
heard_on_0 [] = []
heard_on_0 (configured m ∷ events) = heard_on_0 events
heard_on_0 (transmitted m ∷ events) = heard_on_0 events
heard_on_0 (streamed ∷ events) = heard_on_0 events
heard_on_0 (updated zero state callbacks ∷ events) = frames_of callbacks ++ heard_on_0 events
heard_on_0 (updated (suc m) state callbacks ∷ events) = heard_on_0 events

-- The same of the events before each pass of a stream.
abbrev pub heard_during : {F : Type 0} → List (List (Event F)) → List Frame
heard_during [] = []
heard_during (during ∷ passes) = heard_on_0 during ++ heard_during passes

-- The pass of a client that goes on reading, with what the daemon hears before it.
abbrev pub pass_of : {F : Type 0} → List (Event F) → Pass
pass_of during = record { cancelled = false; arrivals = heard_on_0 during; written = true }

-- All events, those of the stream included.
abbrev pub with_passes : {F : Type 0} → List (List (Event F)) → List (Event F)
with_passes [] = []
with_passes (during ∷ passes) = during ++ streamed ∷ with_passes passes

arrive_all_twice :
    (xs ys : List Frame) (es : List Queue.Event)
    → arrive_all xs (arrive_all ys es) ≡ arrive_all (xs ++ ys) es
arrive_all_twice [] ys es = refl
arrive_all_twice (x ∷ xs) ys es = ap (λ l. Queue.arrive x ∷ l) (arrive_all_twice xs ys es)

arrivals-arrive_all :
    (xs : List Frame) (es : List Queue.Event) → arrivals (arrive_all xs es) ≡ xs ++ arrivals es
arrivals-arrive_all [] es = refl
arrivals-arrive_all (x ∷ xs) es = ap (λ l. x ∷ l) (arrivals-arrive_all xs es)

module _ {F : Type 0} where
  on_queue-NoStream :
      (quiet rest : List (Event F))
      → All NoStream quiet
      → on_queue (quiet ++ rest) ≡ arrive_all (heard_on_0 quiet) (on_queue rest)
  on_queue-NoStream [] rest h = refl
  on_queue-NoStream (configured m ∷ quiet) rest h = on_queue-NoStream quiet rest h.1
  on_queue-NoStream (transmitted m ∷ quiet) rest h = on_queue-NoStream quiet rest h.1
  on_queue-NoStream (streamed ∷ quiet) rest h = absurd h.0
  on_queue-NoStream (updated zero state callbacks ∷ quiet) rest h =
      ap (arrive_all (frames_of callbacks)) (on_queue-NoStream quiet rest h.1)
      ∙ arrive_all_twice (frames_of callbacks) (heard_on_0 quiet) (on_queue rest)
  on_queue-NoStream (updated (suc m) state callbacks ∷ quiet) rest h =
      on_queue-NoStream quiet rest h.1

  -- What a pass has before it: no other stream takes a frame, and a message can carry each.
  abbrev pub IsReadable : List (Event F) → Type 0
  IsReadable during = All NoStream during × All IsSendable (heard_on_0 during)

  on_queue-with_passes :
      (passes : List (List (Event F)))
      → All IsReadable passes
      → on_queue (with_passes passes) ≡ events (map pass_of passes)
  on_queue-with_passes [] h = refl
  on_queue-with_passes (during ∷ passes) h =
      on_queue-NoStream during (streamed ∷ with_passes passes) h.0.0
      ∙ ap (λ es. arrive_all (heard_on_0 during) (take_one ∷ es)) (on_queue-with_passes passes h.1)

  arriving-heard_during :
      (passes : List (List (Event F))) → arriving (map pass_of passes) ≡ heard_during passes
  arriving-heard_during [] = refl
  arriving-heard_during (during ∷ passes) =
      arrivals-arrive_all (heard_on_0 during) (take_one ∷ events (map pass_of passes))
      ∙ ap (λ fs. heard_on_0 during ++ fs) (arriving-heard_during passes)

  pass_of-IsOpen :
      (passes : List (List (Event F)))
      → All IsReadable passes
      → All (λ (p : Pass). IsOpen p × All IsSendable p.arrivals) (map pass_of passes)
  pass_of-IsOpen [] h = tt
  pass_of-IsOpen (during ∷ passes) h = (((refl, refl), h.0.1), pass_of-IsOpen passes h.1)

  left_of-NoStream :
      (quiet : List (Event F))
      → All NoStream quiet
      → left_of [] (on_queue quiet) ≡ push_frames [] (heard_on_0 quiet)
  left_of-NoStream quiet h =
      ap (λ es. left_of [] (on_queue es)) (sym (append-nil quiet))
      ∙ ap (left_of []) (on_queue-NoStream quiet [] h)
      ∙ ap (λ (r : List Frame × List Frame). r.1) (run_queue-arrive_all [] (heard_on_0 quiet) [])

module _ {ℓ} {S : Type ℓ} where
  -- A stream of a service with these frames in its queue, behind the empty message that it writes first.
  receive_stream_lossless :
      (g : GrpcService S) (radio : S) (frames : List Frame) (passes : List Pass)
      → g.radio ≡ some radio
      → g.frame_queue ≡ frames
      → All IsSendable frames
      → All (λ (p : Pass). IsOpen p × All IsSendable p.arrivals) passes
      → length frames + length (arriving passes) ≤ max_queue
      → let s = receive_stream g passes in
        let left = left_of frames (events passes) in
        (s.status ≡ none)
        × (s.queue ≡ left)
        × (received s.writes ++ left ≡ [] ∷ frames ++ arriving passes)
  unfolding receive_stream grpc_buf_pack
  receive_stream_lossless g radio frames passes e q sendable reading fits =
      let follows = stream_from-Follows frames _ passes sendable reading in
      let whole = run_queue_lossless frames (events passes) fits in
      let left = left_of frames (events passes) in
      rw (e, q, receive_stream)
        (
          follows.goes_on,
          follows.left,
          ap (λ (fs : List Frame). [] ∷ fs) (ap (λ fs. fs ++ left) follows.taken ∙ whole),
        )

module _ {W F : Type 0} (driver : Driver (Chip W)) (rfnet : Rfnet F) (later : F → List F)
    (memory : RadioFrame) (alive : ℕ → Bool) (sys : System W) (board : Board W) where
  -- Say the radio of `main` comes up and its listener is alive. Then come calls of Configure and
  -- Transmit and updates of networks, and then a client opens the only stream, reads on, so that it is
  -- not cancelled and each Write succeeds, and more such calls and updates come before each pass of
  -- its loop. Rfnet hands over no more than 64 frames on module 0 in all, each of bytes and of a size
  -- below 2^32. The client is written an empty message first, and then messages that carry these
  -- frames, byte for byte, each once and in their order, but for the last ones, which are in the queue
  -- of the stream and of the daemon that all this leaves; the stream goes on.
  pub main-receive_stream :
      (machine : Option String) (s : Spi) (w : W) (r : Rf215Radio (Chip W))
      (before : List (Event F)) (passes : List (List (Event F)))
      → create_radio sys board driver s w (select_machine_config machine).rfa_config 11 ≡ some r
      → alive grpc_listener ≡ true
      → IsReadable before
      → All IsReadable passes
      → length (heard_on_0 before) + length (heard_during passes) ≤ max_queue
      → let run = handle_all driver rfnet later memory alive in
        let d = run (main driver rfnet later memory sys board machine s w) before in
        let d' = run d (with_passes passes) in
        let stream = receive_stream d (map pass_of passes) in
        (stream.status ≡ none)
        × (stream.queue ≡ d'.frame_queue)
        × (received stream.writes ++ d'.frame_queue ≡ [] ∷ heard_on_0 before ++ heard_during passes)
  main-receive_stream machine s w r before passes up a quiet reading fits =
      let ((radio, e, wired), queue) =
        main_served driver rfnet later memory alive sys board machine s w r before up a in
      let d =
        handle_all driver rfnet later memory alive
          (main driver rfnet later memory sys board machine s w) before in
      let held =
        queue
        ∙ left_of-NoStream before quiet.0
        ∙ push_frames_all (heard_on_0 before) (omega (arith, fits)) in
      let later_queue =
        (handle_all-IsWiredDaemon driver rfnet later memory alive a d (with_passes passes)
          (radio, e, wired)).1
        ∙ ap (λ q. left_of q (on_queue (with_passes passes))) held
        ∙ ap (left_of (heard_on_0 before)) (on_queue-with_passes passes reading) in
      let come = arriving-heard_during passes in
      let (goes_on, left, whole) =
        receive_stream_lossless d radio (heard_on_0 before) (map pass_of passes) e held quiet.1
          (pass_of-IsOpen passes reading) (rw come fits) in
      (
        goes_on,
        left ∙ sym later_queue,
        ap (λ q. received (receive_stream d (map pass_of passes)).writes ++ q) later_queue
            ∙ whole
            ∙ ap (λ fs. [] ∷ heard_on_0 before ++ fs) come,
      )
