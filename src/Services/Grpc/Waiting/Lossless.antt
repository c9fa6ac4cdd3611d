-- ===== src/Services/Grpc/Waiting/Lossless.antt =====
-- What pop_frame delivers of what receive_frame pushes, for calls that run at the same time.
use mathlib.Core.List.{Sublist}
use kaonic_comm.Shared.{
  ℕ, ◌≡◌, ◌≤◌, refl, sym, ap, ◌∙◌, subst, none, some, List, [], ◌∷◌, ◌++◌, length, arith,
  map-append, map,
}
use kaonic_comm.Radio.{Frame}
use kaonic_comm.Services.Grpc.{max_queue, push_frame, pop_frame}
use kaonic_comm.Services.Grpc.Queue.{
  Event, arrive, take_one, arrivals, run_queue, taken_and_left, run_queue_lossless,
  run_queue-sublist,
}
use kaonic_comm.Services.Grpc.Waiting.{Op, pushed, popped, Guarded, Reach}
use kaonic_comm.Services.Grpc.Waiting.Views.{Runs, nothing, pushes, pops, misses}
use kaonic_comm.Services.Grpc.Waiting.Atomic.{reach-Runs}

abbrev pub event_of : Op → Event
event_of (pushed i f) = arrive f
event_of (popped i r) = take_one

-- The frames that were pushed, in order.
abbrev pub pushed_in : List Op → List Frame
pushed_in ops = arrivals (map event_of ops)

-- The frames that `pop_frame` gave, whatever the thread, in order.
abbrev pub taken_in : List Op → List Frame
taken_in [] = []
taken_in (pushed i f ∷ ops) = taken_in ops
taken_in (popped i none ∷ ops) = taken_in ops
taken_in (popped i (some f) ∷ ops) = f ∷ taken_in ops

taken_in-append : (xs ys : List Op) → taken_in (xs ++ ys) ≡ taken_in xs ++ taken_in ys
taken_in-append [] ys = refl
taken_in-append (pushed i f ∷ xs) ys = taken_in-append xs ys
taken_in-append (popped i none ∷ xs) ys = taken_in-append xs ys
taken_in-append (popped i (some f) ∷ xs) ys = ap (λ l. f ∷ l) (taken_in-append xs ys)

-- A run of events and then more of them.
pub run_queue-append :
    (queue : List Frame) (xs ys : List Event)
    → let (taken, left) = run_queue queue xs in
      let (more, last) = run_queue left ys in run_queue queue (xs ++ ys) ≡ (taken ++ more, last)
unfolding pop_frame
run_queue-append queue [] ys = refl
run_queue-append queue (arrive f ∷ xs) ys = run_queue-append (push_frame queue f) xs ys
run_queue-append [] (take_one ∷ xs) ys = run_queue-append [] xs ys
run_queue-append (f ∷ queue) (take_one ∷ xs) ys =
    ap (λ (r : List Frame × List Frame). (f ∷ r.0, r.1)) (run_queue-append queue xs ys)

abbrev Agrees : List Op → List Frame → Type 0
Agrees ops q = run_queue [] (map event_of ops) ≡ (taken_in ops, q)

-- One operation more.
one_op_more :
    (ops : List Op) (op : Op) (q q' : List Frame) (fs : List Frame)
    → Agrees ops q
    → run_queue q (event_of op ∷ []) ≡ (fs, q')
    → taken_in (op ∷ []) ≡ fs
    → Agrees (ops ++ op ∷ []) q'
one_op_more ops op q q' fs ih h e =
    rw
      (
        map-append event_of ops (op ∷ []),
        run_queue-append [] (map event_of ops) (event_of op ∷ []),
        ih,
        h,
        taken_in-append ops (op ∷ []),
        e,
      )
      refl

-- The calls at once are the events of the queue.
pub Runs-run_queue : {ops : List Op} {q : List Frame} → Runs ops q → Agrees ops q
Runs-run_queue nothing = refl
Runs-run_queue (pushes {ops} {q} i f r) =
    one_op_more ops (pushed i f) q _ [] (Runs-run_queue r) refl refl
Runs-run_queue (pops {ops} {q} {q'} i f r h) =
    one_op_more ops (popped i (some f)) q q' (f ∷ []) (Runs-run_queue r) (rw (h, run_queue) refl)
      refl
Runs-run_queue (misses {ops} {q} i r h) =
    one_op_more ops (popped i none) q q [] (Runs-run_queue r) (rw (h, run_queue) refl) refl

module _ {n : ℕ} {ops : List Op} {w : Guarded} (r : Reach n ops w) (o : w.owner ≡ none) where
  reach-taken_and_left : taken_and_left [] (map event_of ops) ≡ taken_in ops ++ w.queue
  reach-taken_and_left =
      ap (λ (t : List Frame × List Frame). t.0 ++ t.1) (Runs-run_queue (reach-Runs r o))

  -- However the calls overlap, the frames that readers were given and those left, while no thread
  -- holds the mutex, are of those pushed, in their order, none of them twice.
  pub reach-sublist : Sublist (taken_in ops ++ w.queue) (pushed_in ops)
  reach-sublist =
      subst (λ l. Sublist l (pushed_in ops)) reach-taken_and_left
        (run_queue-sublist [] (map event_of ops))

-- While no more than 64 frames have been pushed, none is lost, however the calls overlap: those that
-- readers were given, and then those left, while no thread holds the mutex, are those pushed, in
-- their order.
pub reach_lossless :
    {n : ℕ} {ops : List Op} {w : Guarded}
    → Reach n ops w
    → w.owner ≡ none
    → length (pushed_in ops) ≤ max_queue
    → taken_in ops ++ w.queue ≡ pushed_in ops
reach_lossless {n} {ops} r o h =
    sym (reach-taken_and_left r o) ∙ run_queue_lossless [] (map event_of ops) (omega arith)
