-- ===== src/Services/Grpc/Waiting.antt =====
-- receive_frame and pop_frame of grpc_service (kaonic/src/comm/services/grpc_service.cpp) in their
-- single steps, for threads that run at the same time: `_mut`, the wait on `_frame_queue_cond` and
-- its wake-ups, and each access of `_frame_queue`. The scheduler, the clock and spurious wake-ups are
-- the choice of the next step.
pub mod Sections
pub mod Views
pub mod Atomic
pub mod Lossless
pub mod Wakeups
pub mod Results
pub mod Progress
pub mod Delivery
mod Tests
use kaonic_comm.Shared.{
  Action, quiet, locks, unlocks, Admits, act, ℕ, ◌≡◌, ◌≢◌, Bool, true, false, Option, none, some,
  List, [], ◌∷◌, ◌++◌, get_elem?, set, replicate, length, leb, if◌then◌else◌,
}
use kaonic_comm.Radio.{Frame}
use kaonic_comm.Services.Grpc.{max_queue, without_front}

-- Where a thread stands.
pub data Point : Type 0 where
  -- in neither function
  idle : Point
  -- `receive_frame`: before its lock, behind it, behind the removal of the oldest frame, and behind
  -- the push
  calling_push : Frame → Point
  pushing adding : Frame → Point
  notifying : Point
  -- behind `notify_one`
  unlocking : Point
  -- `pop_frame`: before its lock, and before the test of `wait_for`, with whether the time is over
  calling_pop : Point
  testing : Bool → Point
  -- in `wait_for`, without the mutex: asleep, and awake
  sleeping : Point
  woken : Bool → Point
  -- behind `wait_for` that returned true, and behind the copy of the front
  taking : Point
  popping : Frame → Point
  -- before the unlock, and behind it: the frame, or `none` for the result false
  leaving returned : Option Frame → Point

-- What has happened to the queue, and by which thread: a push, or a call of `pop_frame` that has
-- its result.
pub data Op : Type 0 where
  pushed : ℕ → Frame → Op
  popped : ℕ → Option Frame → Op

-- The queue behind the test of `receive_frame`.
unfoldable pub trim : List Frame → List Frame
trim queue = if leb max_queue (length queue) then without_front queue else queue

-- A step of the thread `i` in `receive_frame`, with the queue before it and behind it.
pub data PushMove (i : ℕ) (q : List Frame)
    : Point → Action → List Op → List Frame → Point → Type 0 where
  called : (f : Frame) → PushMove i q idle quiet [] q (calling_push f)
  locked : (f : Frame) → PushMove i q (calling_push f) locks [] q (pushing f)
  trimmed : (f : Frame) → PushMove i q (pushing f) quiet [] (trim q) (adding f)
  added : (f : Frame) → PushMove i q (adding f) quiet (pushed i f ∷ []) (q ++ f ∷ []) notifying
  done : PushMove i q unlocking unlocks [] q idle

-- A step of the thread `i` in `pop_frame`. `front` of an empty queue is no step.
pub data PopMove (i : ℕ) (q : List Frame)
    : Point → Action → List Op → List Frame → Point → Type 0 where
  called : PopMove i q idle quiet [] q calling_pop
  locked : PopMove i q calling_pop locks [] q (testing false)
  found : (late : Bool) → q ≢ [] → PopMove i q (testing late) quiet [] q taking
  waits : q ≡ [] → PopMove i q (testing false) unlocks [] q sleeping
  late : q ≡ [] → PopMove i q (testing true) quiet (popped i none ∷ []) q (leaving none)
  wakes : (late : Bool) → PopMove i q sleeping quiet [] q (woken late)
  relocked : (late : Bool) → PopMove i q (woken late) locks [] q (testing late)
  front : (f : Frame) (rest : List Frame) → q ≡ f ∷ rest → PopMove i q taking quiet [] q (popping f)
  took :
      (f : Frame)
      → PopMove i q (popping f) quiet (popped i (some f) ∷ []) (without_front q) (leaving (some f))
  done : (r : Option Frame) → PopMove i q (leaving r) unlocks [] q (returned r)
  used : (r : Option Frame) → PopMove i q (returned r) quiet [] q idle

pub data Move (i : ℕ) (q : List Frame) (p : Point) (a : Action) (ops : List Op) (q' : List Frame)
    (p' : Point) : Type 0 where
  in_push : PushMove i q p a ops q' p' → Move i q p a ops q' p'
  in_pop : PopMove i q p a ops q' p' → Move i q p a ops q' p'

-- `_frame_queue`, the thread that `_mut` is locked by, and the threads.
pub record Guarded : Type 0 where
  pub queue : List Frame
  pub owner : Option ℕ
  pub points : List Point

-- `notify_one` wakes one of the threads that sleep, if there are any.
unfoldable pub wake : Guarded → ℕ → ℕ → Guarded
wake w i j = record w { points = set (set w.points i unlocking) j (woken false) }

-- A step of the thread `i`, with what happens to the queue.
pub data Step (w : Guarded) (i : ℕ) : List Op → Guarded → Type 0 where
  moves :
      (p : Point) (a : Action) (ops : List Op) (q : List Frame) (p' : Point)
      → get_elem? w.points i ≡ some p
      → Move i w.queue p a ops q p'
      → Admits w.owner a
      → Step w i ops (record { queue = q; owner = act w.owner i a; points = set w.points i p' })
  notifies :
      (j : ℕ)
      → get_elem? w.points i ≡ some notifying
      → get_elem? w.points j ≡ some sleeping
      → Step w i [] (wake w i j)
  notifies_nobody :
      get_elem? w.points i ≡ some notifying
      → ((j : ℕ) → get_elem? w.points j ≢ some sleeping)
      → Step w i [] (record w { points = set w.points i unlocking })

-- So many threads, in neither function, and an empty queue.
abbrev pub at_rest : ℕ → Guarded
at_rest n = record { queue = []; owner = none; points = replicate n idle }

-- The states that so many threads reach, with what has happened to the queue, in order.
pub data Reach (n : ℕ) : List Op → Guarded → Type 0 where
  start : Reach n [] (at_rest n)
  later :
      {ops more : List Op} {w v : Guarded} (i : ℕ)
      → Reach n ops w
      → Step w i more v
      → Reach n (ops ++ more) v
