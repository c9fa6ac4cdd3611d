-- ===== src/Services/Grpc/Waiting/Wakeups.antt =====
-- No wake-up is lost: what notify_one and the test of wait_for promise of a queue that threads wait
-- for.
use mathlib.Core.Option.{some-injective}
use kaonic_comm.Shared.{
  nobody, Action, act, set_here_or_elsewhere, ℕ, zero, suc, ◌+◌, ◌≡◌, ◌≢◌, ◌≤◌, ◌⊎◌, refl, ap, ap₂,
  false, Option, none, some, List, [], ◌∷◌, inl, inr, arith, get_elem?, set, length, length-append,
}
use kaonic_comm.Radio.{Frame}
use kaonic_comm.Services.Grpc.{without_front}
use kaonic_comm.Services.Grpc.Waiting.{
  Point, idle, calling_push, pushing, adding, notifying, unlocking, calling_pop, testing, sleeping,
  woken, taking, popping, leaving, returned, Op, trim, PushMove, PopMove, Move, in_push, in_pop,
  Guarded, wake, Step, moves, notifies, notifies_nobody, Reach, start, later,
}
use kaonic_comm.Services.Grpc.Waiting.Sections.{
  in_section, woken_at, unlocking-ne-sleeping, reach-IsGuarded,
}

-- Whether a thread accounts for a frame of the queue: it is about to wake another, or it is awake
-- and has still to test the queue, or it is to take a frame.
abbrev pub attends : Point → ℕ
attends idle = 0
attends (calling_push f) = 0
attends (pushing f) = 0
attends (adding f) = 0
attends notifying = 1
attends unlocking = 0
attends calling_pop = 0
attends (testing late) = 1
attends sleeping = 0
attends (woken late) = 1
attends taking = 1
attends (popping f) = 1
attends (leaving r) = 0
attends (returned r) = 0

abbrev pub attending : List Point → ℕ
attending [] = 0
attending (p ∷ points) = attends p + attending points

attending-set :
    (points : List Point) (i : ℕ) (p p' : Point)
    → get_elem? points i ≡ some p
    → attending (set points i p') + attends p ≡ attending points + attends p'
attending-set [] i p p' h = cc
attending-set (r ∷ points) zero p p' h =
    let same = ap attends (some-injective r p h) in omega (arith, same)
attending-set (r ∷ points) (suc i) p p' h = let ih = attending-set points i p p' h in omega arith

-- A thread sleeps.
abbrev pub Sleeps : List Point → Type 0
Sleeps points = (j : ℕ) × (get_elem? points j ≡ some sleeping)

-- While a thread sleeps, the frames of the queue are no more than the threads that attend to them.
abbrev IsAttended : Guarded → Type 0
IsAttended w = Sleeps w.points → length w.queue ≤ attending w.points

-- What a step leaves in the queue for the threads that attend to it.
abbrev Fits : Point → Point → List Frame → List Frame → Type 0
Fits p p' q q' = (length q' ≡ 0) ⊎ ((p' ≢ sleeping) × length q' + attends p ≤ length q + attends p')

length-trim : (q : List Frame) → length (trim q) ≤ length q
unfolding trim
length-trim [] = ground arith
length-trim (f ∷ q) = ground arith

took-Fits : (f : Frame) (q : List Frame) → Fits (popping f) (leaving (some f)) q (without_front q)
took-Fits f [] = inl refl
took-Fits f (g ∷ q) = inr (λ e. cc, omega arith)

Move-Fits :
    {i : ℕ} {q q' : List Frame} {p p' : Point} {a : Action} {ops : List Op}
    → Move i q p a ops q' p'
    → Fits p p' q q'
Move-Fits (in_push (PushMove.called f)) = inr (λ e. cc, omega arith)
Move-Fits (in_push (PushMove.locked f)) = inr (λ e. cc, omega arith)
Move-Fits {i} {q} (in_push (PushMove.trimmed f)) = inr (λ e. cc, omega (arith, length-trim q))
Move-Fits {i} {q} (in_push (PushMove.added f)) =
    inr (λ e. cc, omega (arith, length-append q (f ∷ [])))
Move-Fits (in_push PushMove.done) = inr (λ e. cc, omega arith)
Move-Fits (in_pop PopMove.called) = inr (λ e. cc, omega arith)
Move-Fits (in_pop PopMove.locked) = inr (λ e. cc, omega arith)
Move-Fits (in_pop (PopMove.found late h)) = inr (λ e. cc, omega arith)
Move-Fits (in_pop (PopMove.waits h)) = inl (ap length h)
Move-Fits (in_pop (PopMove.late h)) = inl (ap length h)
Move-Fits (in_pop (PopMove.wakes late)) = inr (λ e. cc, omega arith)
Move-Fits (in_pop (PopMove.relocked late)) = inr (λ e. cc, omega arith)
Move-Fits (in_pop (PopMove.front f rest h)) = inr (λ e. cc, omega arith)
Move-Fits {i} {q} (in_pop (PopMove.took f)) = took-Fits f q
Move-Fits (in_pop (PopMove.done r)) = inr (λ e. cc, omega arith)
Move-Fits (in_pop (PopMove.used r)) = inr (λ e. cc, omega arith)

moved-IsAttended :
    (w : Guarded) (i : ℕ) (p p' : Point) (q' : List Frame) (owner : Option ℕ)
    → get_elem? w.points i ≡ some p
    → Fits p p' w.queue q'
    → IsAttended w
    → IsAttended (record { queue = q'; owner = owner; points = set w.points i p' })
moved-IsAttended w i p p' q' owner at (inl e) s sleeps = omega arith
moved-IsAttended w i p p' q' owner at (inr (awake, fits)) s (j, e) =
    elim (set_here_or_elsewhere w.points i j p' sleeping p at e) [
      | inl (same, f) ↦ absurd (awake f)
      | inr (ne, f) ↦ let before = s (j, f) in omega (arith, attending-set w.points i p p' at)
    ]

-- `notify_one` moves what the caller accounts for to the thread that it wakes.
wake-IsAttended :
    (w : Guarded) (i k : ℕ)
    → get_elem? w.points i ≡ some notifying
    → get_elem? w.points k ≡ some sleeping
    → IsAttended w
    → IsAttended (wake w i k)
unfolding wake
wake-IsAttended w i k at bt s sleeps =
    let one = attending-set w.points i notifying unlocking at in
    let two =
      attending-set (set w.points i unlocking) k sleeping (woken false)
        (woken_at w.points i k at bt) in
    let before = s (k, bt) in omega arith

step-IsAttended :
    (i : ℕ) {w v : Guarded} {ops : List Op} → Step w i ops v → IsAttended w → IsAttended v
step-IsAttended i {w} (moves p a ops q p' at m admits) s =
    λ sleeps. moved-IsAttended w i p p' q (act w.owner i a) at (Move-Fits m) s sleeps
step-IsAttended i {w} (notifies k at bt) s = λ sleeps. wake-IsAttended w i k at bt s sleeps
step-IsAttended i {w} (notifies_nobody at off) s = λ (j, e).
    elim (set_here_or_elsewhere w.points i j unlocking sleeping notifying at e) [
      | inl (same, f) ↦ absurd (unlocking-ne-sleeping f)
      | inr (ne, f) ↦ absurd (off j f)
    ]

pub reach-IsAttended : {n : ℕ} {ops : List Op} {w : Guarded} → Reach n ops w → IsAttended w
reach-IsAttended start = λ sleeps. omega arith
reach-IsAttended (later i r s) = step-IsAttended i s (reach-IsAttended r)

-- A thread that is awake behind its wait, before it locks the mutex again.
abbrev pub awakes : Point → ℕ
awakes (woken late) = 1
awakes p = 0

abbrev pub awake : List Point → ℕ
awake [] = 0
awake (p ∷ points) = awakes p + awake points

attends-awakes : (p : Point) → in_section p ≡ false → attends p ≡ awakes p
attends-awakes idle h = refl
attends-awakes (calling_push f) h = refl
attends-awakes (pushing f) h = refl
attends-awakes (adding f) h = refl
attends-awakes notifying h = cc
attends-awakes unlocking h = refl
attends-awakes calling_pop h = refl
attends-awakes (testing late) h = cc
attends-awakes sleeping h = refl
attends-awakes (woken late) h = refl
attends-awakes taking h = cc
attends-awakes (popping f) h = cc
attends-awakes (leaving r) h = refl
attends-awakes (returned r) h = refl

attending-awake :
    (points : List Point)
    → ((j : ℕ) (p : Point) → get_elem? points j ≡ some p → in_section p ≡ false)
    → attending points ≡ awake points
attending-awake [] h = refl
attending-awake (p ∷ points) h =
    ap₂ (λ (x y : ℕ). x + y) (attends-awakes p (h zero p refl))
      (attending-awake points (λ j. h (suc j)))

-- No wake-up is lost: in every state that the threads reach, while the mutex is free and a thread
-- sleeps in `pop_frame`, at least as many others are awake, to lock the mutex and test the queue, as
-- there are frames in the queue.
pub reach-awake :
    {n : ℕ} {ops : List Op} {w : Guarded} (j : ℕ)
    → Reach n ops w
    → w.owner ≡ none
    → get_elem? w.points j ≡ some sleeping
    → length w.queue ≤ awake w.points
reach-awake {n} {ops} {w} j r o e =
    let outside =
      attending-awake w.points (nobody in_section w.owner w.points (reach-IsGuarded r) o) in
    let all = reach-IsAttended r (j, e) in omega arith
