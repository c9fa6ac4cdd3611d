-- ===== src/Services/Grpc/Queue.antt =====
-- The bounded queue of grpc_service: receive_frame and pop_frame.
use mathlib.Core.List.{Sublist, cons-sublist-cons, tail-sublist}
use mathlib.Core.List.Sublist
use kaonic_comm.Shared.{
  ℕ, suc, ◌+◌, ◌-◌, ◌≤◌, ◌≡◌, refl, sym, ap, ◌∙◌, List, [], ◌∷◌, ◌++◌, append-nil, append_assoc,
  arith, length, length-append, drop, length-drop, drop_at, drop-append, drop-drop, Bool-cases, inl,
  inr, leb→le, none, some, leb,
}
use kaonic_comm.Radio.{Frame}
use kaonic_comm.Services.Grpc.{max_queue, push_frame, push_frames, pop_frame}

-- The last `n` frames of a list.
abbrev pub keep_last : ℕ → List Frame → List Frame
keep_last n fs = drop (length fs - n) fs

-- Dropping from what was kept, with more behind it, is dropping from the whole.
keep_last-append :
    (n : ℕ) (xs ys : List Frame) → keep_last n (keep_last n xs ++ ys) ≡ keep_last n (xs ++ ys)
keep_last-append n xs ys = rw (drop-append (length xs - n) xs ys (omega arith)) (
    drop-drop (length xs - n) (length (drop (length xs - n) (xs ++ ys)) - n) (xs ++ ys)
    ∙ drop_at (xs ++ ys)
        (omega (arith, length-drop (length xs - n) (xs ++ ys), length-append xs ys)))

keep_last_all : (n : ℕ) (xs : List Frame) → length xs ≤ n → keep_last n xs ≡ xs
keep_last_all n xs h = drop_at {j = length xs - n} {k = 0} xs (omega arith)

length-keep_last : (n : ℕ) (xs : List Frame) → length (keep_last n xs) ≤ n
length-keep_last n xs = omega (arith, length-drop (length xs - n) xs)

push_frame-keep_last :
    (queue : List Frame) (f : Frame)
    → length queue ≤ max_queue
    → push_frame queue f ≡ keep_last max_queue (queue ++ f ∷ [])
unfolding push_frame
push_frame-keep_last [] f h = refl
push_frame-keep_last (g ∷ queue) f h = elim (Bool-cases (leb max_queue (suc (length queue)))) [
  | inl full ↦ rw full (
      sym (
        drop_at {j = suc (length (queue ++ f ∷ [])) - max_queue} {k = 1} (g ∷ queue ++ f ∷ []) (
          omega (arith, length-append queue (f ∷ []), leb→le max_queue (suc (length queue)) full))))
  | inr room ↦ rw room (
      sym (
        keep_last_all max_queue (g ∷ queue ++ f ∷ [])
          (ground (arith, length-append queue (f ∷ [])))))
]

length-push_frame :
    (queue : List Frame) (f : Frame)
    → length queue ≤ max_queue
    → length (push_frame queue f) ≤ max_queue
length-push_frame queue f h =
    rw (push_frame-keep_last queue f h) (length-keep_last max_queue (queue ++ f ∷ []))

-- Whatever arrives, the queue holds the newest 64 of the frames that it held and that arrived, in
-- their order, and never more.
pub push_frames-keep_last :
    (queue fs : List Frame)
    → length queue ≤ max_queue
    → (push_frames queue fs ≡ keep_last max_queue (queue ++ fs))
      × (length (push_frames queue fs) ≤ max_queue)
push_frames-keep_last queue [] h =
    (rw (append-nil queue) (sym (keep_last_all max_queue queue h)), h)
push_frames-keep_last queue (f ∷ fs) h =
    let ih = push_frames-keep_last (push_frame queue f) fs (length-push_frame queue f h) in
    (
      ih.0
          ∙ ap (λ q. keep_last max_queue (q ++ fs)) (push_frame-keep_last queue f h)
          ∙ keep_last-append max_queue (queue ++ f ∷ []) fs
          ∙ ap (keep_last max_queue) (append_assoc queue (f ∷ []) fs),
      ih.1,
    )

pub push_frames_all : (fs : List Frame) → length fs ≤ max_queue → push_frames [] fs ≡ fs
push_frames_all fs h = (push_frames-keep_last [] fs (omega arith)).0 ∙ keep_last_all max_queue fs h

-- What happens to the queue: a frame arrives, or a reader takes one.
pub data Event : Type 0 where
  arrive : Frame → Event
  take_one : Event

abbrev pub arrivals : List Event → List Frame
arrivals [] = []
arrivals (arrive f ∷ es) = f ∷ arrivals es
arrivals (take_one ∷ es) = arrivals es

-- The frames that readers were given, in order, and the queue that is left.
abbrev pub run_queue : List Frame → List Event → List Frame × List Frame
run_queue queue [] = ([], queue)
run_queue queue (arrive f ∷ es) = run_queue (push_frame queue f) es
run_queue queue (take_one ∷ es) = elim (pop_frame queue) [
  | none ↦ run_queue queue es
  | some (f, queue') ↦ let (taken, left) = run_queue queue' es in (f ∷ taken, left)
]

abbrev pub taken_and_left : List Frame → List Event → List Frame
taken_and_left queue es = let (taken, left) = run_queue queue es in taken ++ left

push_frame_room :
    (queue : List Frame) (f : Frame)
    → suc (length queue) ≤ max_queue
    → push_frame queue f ≡ queue ++ f ∷ []
unfolding push_frame
push_frame_room queue f h = ground arith

-- While the frames held and those that arrive are no more than 64, none is lost and none is
-- delivered twice or out of order: what readers took, and then what is left, is what was held and
-- then what arrived.
pub run_queue_lossless :
    (queue : List Frame) (es : List Event)
    → length queue + length (arrivals es) ≤ max_queue
    → taken_and_left queue es ≡ queue ++ arrivals es
unfolding pop_frame
run_queue_lossless queue [] h = sym (append-nil queue)
run_queue_lossless queue (arrive f ∷ es) h =
    ap (λ q. taken_and_left q es) (push_frame_room queue f (omega arith))
    ∙ run_queue_lossless (queue ++ f ∷ []) es (omega (arith, length-append queue (f ∷ [])))
    ∙ append_assoc queue (f ∷ []) (arrivals es)
run_queue_lossless [] (take_one ∷ es) h = run_queue_lossless [] es h
run_queue_lossless (f ∷ queue) (take_one ∷ es) h =
    ap (λ fs. f ∷ fs) (run_queue_lossless queue es (omega arith))

push_frame-sublist :
    (queue : List Frame) (f : Frame) → Sublist (push_frame queue f) (queue ++ f ∷ [])
unfolding push_frame
push_frame-sublist [] f = Sublist.refl (f ∷ [])
push_frame-sublist (g ∷ queue) f = elim (Bool-cases (leb max_queue (suc (length queue)))) [
  | inl full ↦ rw full (tail-sublist (g ∷ (queue ++ f ∷ [])))
  | inr room ↦ rw room (Sublist.refl (g ∷ (queue ++ f ∷ [])))
]

-- With any number of arrivals frames may be lost, but what is delivered and what is left keep the
-- order of arrival and repeat nothing.
pub run_queue-sublist :
    (queue : List Frame) (es : List Event)
    → Sublist (taken_and_left queue es) (queue ++ arrivals es)
unfolding pop_frame
run_queue-sublist queue [] = rw (append-nil queue) (Sublist.refl queue)
run_queue-sublist queue (arrive f ∷ es) = rw (← append_assoc queue (f ∷ []) (arrivals es)) (
    Sublist.trans (run_queue-sublist (push_frame queue f) es)
      (Sublist.append (push_frame-sublist queue f) (Sublist.refl (arrivals es))))
run_queue-sublist [] (take_one ∷ es) = run_queue-sublist [] es
run_queue-sublist (f ∷ queue) (take_one ∷ es) = cons-sublist-cons.1 (run_queue-sublist queue es)
