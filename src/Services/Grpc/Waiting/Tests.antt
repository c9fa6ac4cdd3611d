-- ===== src/Services/Grpc/Waiting/Tests.antt =====
-- A run of three threads: two wait in pop_frame, the third pushes a frame and wakes one of them,
-- which takes it.
use kaonic_comm.Shared.{
  Action, Admits, ℕ, ◌≡◌, ◌≤◌, refl, false, none, some, List, [], ◌∷◌, ◌++◌, arith, length,
  get_elem?,
}
use kaonic_comm.Messages.{FrameMessage}
use kaonic_comm.Radio.{Frame}
use kaonic_comm.Services.Grpc.Waiting.{
  Point, Op, trim, PushMove, PopMove, Move, in_push, in_pop, Guarded, popped, returned, wake, moves,
  notifies, at_rest, Reach, start, later,
}
use kaonic_comm.Services.Grpc.Waiting.Views.{Runs}
use kaonic_comm.Services.Grpc.Waiting.Atomic.{reach-Runs}
use kaonic_comm.Services.Grpc.Waiting.Lossless.{taken_in, reach_lossless}
use kaonic_comm.Services.Grpc.Waiting.Wakeups.{awake, reach-awake}
use kaonic_comm.Services.Grpc.Waiting.Delivery.{Alone, reach-delivers}

abbrev Stage : Type 0
Stage = (ops : List Op) × (w : Guarded) × Reach 3 ops w

unfoldable goes :
    (s : Stage) (i : ℕ) {p p' : Point} {a : Action} {ops : List Op} {q : List Frame}
    → Move i s.1.queue p a ops q p'
    → get_elem? s.1.points i ≡ some p
    → Admits s.1.owner a
    → Stage
goes (ops, w, r) i m at admits = (_, _, later i r (moves _ _ _ _ _ at m admits))

-- The threads 0 and 2 find the queue empty and fall asleep.
unfoldable asleep : Stage
unfolding goes
asleep =
    let s1 = goes ([], at_rest 3, start) 0 (in_pop PopMove.called) refl tt in
    let s2 = goes s1 0 (in_pop PopMove.locked) refl refl in
    let s3 = goes s2 0 (in_pop (PopMove.waits refl)) refl tt in
    let s4 = goes s3 2 (in_pop PopMove.called) refl tt in
    let s5 = goes s4 2 (in_pop PopMove.locked) refl refl in
    goes s5 2 (in_pop (PopMove.waits refl)) refl tt

abbrev sent : Frame
sent = 7 ∷ 8 ∷ []

unfoldable added : Stage
unfolding goes asleep trim
added =
    let s1 = goes asleep 1 (in_push (PushMove.called sent)) refl tt in
    let s2 = goes s1 1 (in_push (PushMove.locked sent)) refl refl in
    let s3 = goes s2 1 (in_push (PushMove.trimmed sent)) refl tt in
    goes s3 1 (in_push (PushMove.added sent)) refl tt

-- The thread 0 is awake, and the mutex is free.
unfoldable notified : Stage
unfolding goes asleep trim added wake
notified =
    let (ops, w, r) = added in
    let s : Stage = (_, _, later 1 r (notifies 0 refl refl)) in
    goes s 1 (in_push PushMove.done) refl tt

-- The thread 0 holds the mutex again, and finds the frame.
unfoldable found : Stage
unfolding goes asleep trim added wake notified
found =
    let s1 = goes notified 0 (in_pop (PopMove.relocked false)) refl refl in
    goes s1 0 (in_pop (PopMove.found false (λ e. cc))) refl tt

unfoldable delivered : Stage
unfolding goes asleep trim added wake notified found
delivered =
    let s1 = goes found 0 (in_pop (PopMove.front sent [] refl)) refl tt in
    let s2 = goes s1 0 (in_pop (PopMove.took sent)) refl tt in
    goes s2 0 (in_pop (PopMove.done (some sent))) refl tt

reach-awake_example : length notified.1.queue ≤ awake notified.1.points
unfolding goes asleep trim added wake notified
reach-awake_example = reach-awake 2 notified.2 refl refl

notified-awake : awake notified.1.points ≡ 1
unfolding goes asleep trim added wake notified
notified-awake = refl

reach-Runs_example : Runs notified.0 (sent ∷ [])
unfolding goes asleep trim added wake notified
reach-Runs_example = reach-Runs notified.2 refl

reach_lossless_example : taken_in delivered.0 ++ [] ≡ sent ∷ []
unfolding goes asleep trim added wake notified found delivered
reach_lossless_example = reach_lossless delivered.2 refl (omega arith)

abbrev blank : FrameMessage
blank = record { words = []; size = 0 }

reach-delivers_example :
    (i : ℕ) × (v : Guarded) × Alone i notified.1 (popped i (some sent) ∷ []) v
    × (get_elem? v.points i ≡ some (returned (some sent)))
    × (v.queue ≡ [])
    × (v.owner ≡ none)
unfolding goes asleep trim added wake notified
reach-delivers_example = reach-delivers 2 sent [] notified.2 refl refl refl
