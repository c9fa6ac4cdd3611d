-- ===== src/Services/Grpc/Stream.antt =====
-- What grpc_service::ReceiveStream writes to its client.
use kaonic_comm.Shared.{
  List-cases, ◌<◌, ◌^◌, ◌≡◌, refl, ap, ap₂, ◌∙◌, inl, inr, true, false, none, List, [], ◌∷◌, map,
  subst, length, All, IsByte, leb, Bool-cases, All-append,
}
use kaonic_comm.Messages.{FrameMessage}
use kaonic_comm.Radio.{Frame}
use kaonic_comm.Services.Buffers.{grpc_buf_pack, grpc_buf_unpack}
use kaonic_comm.Services.Buffers.Laws.{grpc_buf_pack-grpc_buf_unpack}
use kaonic_comm.Services.Grpc.{
  max_queue, push_frame, push_frames, pop_frame, Pass, Streamed, stream_from,
}
use kaonic_comm.Services.Grpc.Queue.{Event, arrive, take_one, arrivals, run_queue}

-- A frame that a message can carry.
abbrev pub IsSendable : Frame → Type 0
IsSendable f = All IsByte f × (length f < 2 ^ 32)

-- The client goes on reading: no pass is cancelled and each write succeeds.
abbrev pub IsOpen : Pass → Type 0
IsOpen p = (p.cancelled ≡ false) × (p.written ≡ true)

-- The bytes of the messages written.
abbrev pub received : List FrameMessage → List Frame
received = map (λ m. grpc_buf_pack m [])

abbrev pub arrive_all : List Frame → List Event → List Event
arrive_all [] es = es
arrive_all (f ∷ fs) es = arrive f ∷ arrive_all fs es

-- A pass for the queue: frames arrive, and then one is taken.
abbrev pub events : List Pass → List Event
events [] = []
events (p ∷ ps) = arrive_all p.arrivals (take_one ∷ events ps)

pub run_queue-arrive_all :
    (queue fs : List Frame) (es : List Event)
    → run_queue queue (arrive_all fs es) ≡ run_queue (push_frames queue fs) es
run_queue-arrive_all queue [] es = refl
run_queue-arrive_all queue (f ∷ fs) es = run_queue-arrive_all (push_frame queue f) fs es

push_frame-IsSendable :
    (queue : List Frame) (f : Frame)
    → All IsSendable queue
    → IsSendable f
    → All IsSendable (push_frame queue f)
unfolding push_frame
push_frame-IsSendable [] f h k = (k, tt)
push_frame-IsSendable (g ∷ queue) f h k = elim (Bool-cases (leb max_queue (length (g ∷ queue)))) [
  | inl full ↦ rw full (All-append IsSendable queue (f ∷ []) h.1 (k, tt))
  | inr room ↦ rw room (h.0, All-append IsSendable queue (f ∷ []) h.1 (k, tt))
]

push_frames-IsSendable :
    (queue fs : List Frame)
    → All IsSendable queue
    → All IsSendable fs
    → All IsSendable (push_frames queue fs)
push_frames-IsSendable queue [] h k = h
push_frames-IsSendable queue (f ∷ fs) h k =
    push_frames-IsSendable (push_frame queue f) fs (push_frame-IsSendable queue f h k.0) k.1

-- What the stream has done when the passes are over.
pub record Follows (queue : List Frame) (passes : List Pass) (s : Streamed) : Type 0 where
  pub goes_on : s.status ≡ none
  pub left : s.queue ≡ (run_queue queue (events passes)).1
  pub taken : received s.writes ≡ (run_queue queue (events passes)).0

module _ (queue : List Frame) (message : FrameMessage) (p : Pass) (passes : List Pass)
    (open_pass : IsOpen p) where
  stream_from_empty :
      push_frames queue p.arrivals ≡ []
      → stream_from queue message (p ∷ passes) ≡ stream_from [] message passes
  unfolding stream_from pop_frame
  stream_from_empty e = rw (open_pass.0, e) (ap (λ q. stream_from q message passes) e)

  stream_from_full :
      (f : Frame) (rest : List Frame)
      → push_frames queue p.arrivals ≡ f ∷ rest
      → let message' = grpc_buf_unpack f message in
        let s = stream_from rest message' passes in
        stream_from queue message (p ∷ passes) ≡ record s { writes = message' ∷ s.writes }
  unfolding stream_from pop_frame
  stream_from_full f rest e = rw (open_pass.0, e, open_pass.1)

module _ (queue : List Frame) (p : Pass) (passes : List Pass) where
  run_queue_empty :
      push_frames queue p.arrivals ≡ []
      → run_queue queue (events (p ∷ passes)) ≡ run_queue [] (events passes)
  unfolding pop_frame
  run_queue_empty e =
      run_queue-arrive_all queue p.arrivals (take_one ∷ events passes)
      ∙ ap (λ q. run_queue q (take_one ∷ events passes)) e

  run_queue_full :
      (f : Frame) (rest : List Frame)
      → push_frames queue p.arrivals ≡ f ∷ rest
      → run_queue queue (events (p ∷ passes))
        ≡ (f ∷ (run_queue rest (events passes)).0, (run_queue rest (events passes)).1)
  unfolding pop_frame
  run_queue_full f rest e =
      run_queue-arrive_all queue p.arrivals (take_one ∷ events passes)
      ∙ ap (λ q. run_queue q (take_one ∷ events passes)) e

pub stream_from-Follows :
    (queue : List Frame) (message : FrameMessage) (passes : List Pass)
    → All IsSendable queue
    → All (λ (p : Pass). IsOpen p × All IsSendable p.arrivals) passes
    → Follows queue passes (stream_from queue message passes)
unfolding stream_from
stream_from-Follows queue message [] h k = record { goes_on = refl; left = refl; taken = refl }
stream_from-Follows queue message (p ∷ passes) h k =
    elim (List-cases (push_frames queue p.arrivals)) [
      | inl e ↦ rw (stream_from_empty queue message p passes k.0.0 e) (
          let ih = stream_from-Follows [] message passes tt k.1 in
          record {
            goes_on = ih.goes_on;
            left = rw (run_queue_empty queue p passes e) ih.left;
            taken = rw (run_queue_empty queue p passes e) ih.taken;
          })
      | inr (f, rest, e) ↦ rw (stream_from_full queue message p passes k.0.0 f rest e) (
          let sendable =
            subst (All IsSendable) e (push_frames-IsSendable queue p.arrivals h k.0.1) in
          let ih = stream_from-Follows rest (grpc_buf_unpack f message) passes sendable.1 k.1 in
          record {
            goes_on = ih.goes_on;
            left = rw (run_queue_full queue p passes f rest e) ih.left;
            taken = rw (run_queue_full queue p passes f rest e) (
                ap₂ ◌∷◌ (grpc_buf_pack-grpc_buf_unpack f message [] sendable.0.0 sendable.0.1)
                  ih.taken);
          })
    ]

abbrev pub arriving : List Pass → List Frame
arriving ps = arrivals (events ps)
