-- ===== src/Services/Grpc/Waiting/Delivery.antt =====
-- A frame that waits in the queue of grpc_service, while readers wait for one, is on its way.
use kaonic_comm.Shared.{
  quiet, locks, unlocks, ℕ, zero, suc, ◌≤◌, ◌≡◌, refl, ap, Bool, none, some, List, [], ◌∷◌, ◌++◌,
  arith, length, get_elem?, set, get_elem?-set_self, ◌⊎◌, inl, inr,
}
use kaonic_comm.Radio.{Frame}
use kaonic_comm.Services.Grpc.{without_front}
use kaonic_comm.Services.Grpc.Waiting.{
  Point, idle, calling_push, pushing, adding, notifying, unlocking, calling_pop, testing, sleeping,
  woken, taking, popping, leaving, returned, Op, popped, PopMove, in_pop, Guarded, Step, moves,
  Reach,
}
use kaonic_comm.Services.Grpc.Waiting.Wakeups.{awakes, awake, reach-awake}

-- Steps of the thread `i` alone, with what they do to the queue.
pub data Alone (i : ℕ) : Guarded → List Op → Guarded → Type 0 where
  rests : {w : Guarded} → Alone i w [] w
  steps :
      {w v u : Guarded} {ops more : List Op}
      → Step w i ops v
      → Alone i v more u
      → Alone i w (ops ++ more) u

woken_cases : (p : Point) → ((late : Bool) × (p ≡ woken late)) ⊎ (awakes p ≡ 0)
woken_cases idle = inr refl
woken_cases (calling_push f) = inr refl
woken_cases (pushing f) = inr refl
woken_cases (adding f) = inr refl
woken_cases notifying = inr refl
woken_cases unlocking = inr refl
woken_cases calling_pop = inr refl
woken_cases (testing late) = inr refl
woken_cases sleeping = inr refl
woken_cases (woken late) = inl (late, refl)
woken_cases taking = inr refl
woken_cases (popping f) = inr refl
woken_cases (leaving r) = inr refl
woken_cases (returned r) = inr refl

awake_one :
    (points : List Point)
    → 1 ≤ awake points
    → (i : ℕ) × (late : Bool) × (get_elem? points i ≡ some (woken late))
awake_one [] h = absurd (omega arith)
awake_one (p ∷ points) h = elim (woken_cases p) [
  | inl (late, e) ↦ (zero, late, ap (λ x. some x) e)
  | inr none_here ↦ let (i, late, e) = awake_one points (omega arith) in (suc i, late, e)
]

-- A thread that is awake takes the frame at the front in five steps.
woken_takes :
    (w : Guarded) (i : ℕ) (late : Bool) (f : Frame) (rest : List Frame)
    → w.owner ≡ none
    → get_elem? w.points i ≡ some (woken late)
    → w.queue ≡ f ∷ rest
    → (v : Guarded) × Alone i w (popped i (some f) ∷ []) v
      × (get_elem? v.points i ≡ some (returned (some f)))
      × (v.queue ≡ rest)
      × (v.owner ≡ none)
woken_takes w i late f rest o at e =
    let p0 = w.points in
    let p1 = set p0 i (testing late) in
    let p2 = set p1 i taking in
    let p3 = set p2 i (popping f) in
    let p4 = set p3 i (leaving (some f)) in
    let at1 = get_elem?-set_self p0 i (testing late) (woken late) at in
    let at2 = get_elem?-set_self p1 i taking (testing late) at1 in
    let at3 = get_elem?-set_self p2 i (popping f) taking at2 in
    let at4 = get_elem?-set_self p3 i (leaving (some f)) (popping f) at3 in
    (
      record { queue = without_front w.queue; owner = none; points = set p4 i (returned (some f)) },
      steps
          (moves (woken late) locks [] w.queue (testing late) at (in_pop (PopMove.relocked late)) o)
          (steps
            (moves (testing late) quiet [] w.queue taking at1
              (in_pop (PopMove.found late (λ n. cc))) tt)
            (steps
              (moves taking quiet [] w.queue (popping f) at2 (in_pop (PopMove.front f rest e)) tt)
              (steps
                (moves (popping f) quiet _ _ (leaving (some f)) at3 (in_pop (PopMove.took f)) tt)
                (steps
                  (moves (leaving (some f)) unlocks [] _ (returned (some f)) at4
                    (in_pop (PopMove.done (some f))) tt)
                  rests)))),
      get_elem?-set_self p4 i (returned (some f)) (leaving (some f)) at4,
      ap without_front e,
      refl,
    )

-- A frame is not left lying: in every state that the threads reach, while the mutex is free, a thread
-- sleeps in `pop_frame` and the queue is not empty, there is a thread that needs only to be given its
-- turns: by itself it takes the frame at the front and returns it, and the mutex is free again.
pub reach-delivers :
    {n : ℕ} {ops : List Op} {w : Guarded} (j : ℕ) (f : Frame) (rest : List Frame)
    → Reach n ops w
    → w.owner ≡ none
    → get_elem? w.points j ≡ some sleeping
    → w.queue ≡ f ∷ rest
    → (i : ℕ) × (v : Guarded) × Alone i w (popped i (some f) ∷ []) v
      × (get_elem? v.points i ≡ some (returned (some f)))
      × (v.queue ≡ rest)
      × (v.owner ≡ none)
reach-delivers {n} {ops} {w} j f rest r o at e =
    let enough = reach-awake j r o at in
    let some_queue = ap length e in
    let (i, late, woke) = awake_one w.points (omega arith) in
    let (v, alone, got, left, free) = woken_takes w i late f rest o woke e in
    (i, v, alone, got, left, free)
