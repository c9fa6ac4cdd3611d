-- ===== src/Services/Grpc/Waiting/Views.antt =====
-- What each step of receive_frame and pop_frame does to the queue: beside it, the queue that the
-- calls leave when each acts at once.
use kaonic_comm.Shared.{
  Action, quiet, locks, unlocks, ℕ, ◌≡◌, ◌≢◌, refl, sym, ap, ◌∙◌, false, none, some, List, [], ◌∷◌,
  ◌++◌, append-nil,
}
use kaonic_comm.Radio.{Frame}
use kaonic_comm.Services.Grpc.{without_front, push_frame, pop_frame}
use kaonic_comm.Services.Grpc.Waiting.{
  Point, idle, calling_push, pushing, adding, notifying, unlocking, calling_pop, testing, sleeping,
  woken, taking, popping, leaving, returned, Op, pushed, popped, trim, PushMove, PopMove, Move,
  in_push, in_pop,
}
use kaonic_comm.Services.Grpc.Waiting.Sections.{in_section}

-- The queues that calls at once leave, from the empty one, with each result of `pop_frame` the one
-- that it has there.
pub data Runs : List Op → List Frame → Type 0 where
  nothing : Runs [] []
  pushes :
      {ops : List Op} {q : List Frame} (i : ℕ) (f : Frame)
      → Runs ops q
      → Runs (ops ++ pushed i f ∷ []) (push_frame q f)
  pops :
      {ops : List Op} {q q' : List Frame} (i : ℕ) (f : Frame)
      → Runs ops q
      → pop_frame q ≡ some (f, q')
      → Runs (ops ++ popped i (some f) ∷ []) q'
  misses :
      {ops : List Op} {q : List Frame} (i : ℕ)
      → Runs ops q
      → pop_frame q ≡ none
      → Runs (ops ++ popped i none ∷ []) q

-- The queue `q` in the middle of a call, with `a` the queue that the calls at once leave.
abbrev pub View : Point → List Frame → List Frame → Type 0
View idle q a = Unit
View (calling_push f) q a = Unit
View (pushing f) q a = q ≡ a
View (adding f) q a = q ≡ trim a
View notifying q a = q ≡ a
View unlocking q a = q ≡ a
View calling_pop q a = Unit
View (testing late) q a = q ≡ a
View sleeping q a = Unit
View (woken late) q a = Unit
View taking q a = (q ≡ a) × (q ≢ [])
View (popping f) q a = (q ≡ a) × (q ≡ f ∷ without_front q)
View (leaving r) q a = q ≡ a
View (returned r) q a = Unit

pub free_of_section : (p : Point) (q a : List Frame) → in_section p ≡ false → View p q a
free_of_section idle q a h = tt
free_of_section (calling_push f) q a h = tt
free_of_section (pushing f) q a h = cc
free_of_section (adding f) q a h = cc
free_of_section notifying q a h = cc
free_of_section unlocking q a h = cc
free_of_section calling_pop q a h = tt
free_of_section (testing late) q a h = cc
free_of_section sleeping q a h = tt
free_of_section (woken late) q a h = tt
free_of_section taking q a h = cc
free_of_section (popping f) q a h = cc
free_of_section (leaving r) q a h = cc
free_of_section (returned r) q a h = tt

abbrev pub Extends : List Frame → List Op → List Frame → Type 0
Extends a more a' = (ops : List Op) → Runs ops a → Runs (ops ++ more) a'

pub no_op_more : (a : List Frame) → Extends a [] a
no_op_more a ops r = rw (append-nil ops) r

-- What a step needs of the queue, by its action, and what it leaves.
abbrev pub Needs : Action → Point → List Frame → List Frame → Type 0
Needs quiet p q a = View p q a
Needs locks p q a = q ≡ a
Needs unlocks p q a = View p q a

abbrev pub Leaves :
    Action → Point → Point → List Frame → List Frame → List Frame → List Frame → Type 0
Leaves quiet p p' q q' a a' = View p' q' a' × (in_section p ≡ false → (q' ≡ q) × (a' ≡ a))
Leaves locks p p' q q' a a' = View p' q' a'
Leaves unlocks p p' q q' a a' = View p' q' a' × (q' ≡ a')

trimmed-push_frame : (a : List Frame) (f : Frame) → push_frame a f ≡ trim a ++ f ∷ []
unfolding push_frame trim
trimmed-push_frame a f = refl

pop_frame-front :
    (a : List Frame) (f : Frame) → a ≡ f ∷ without_front a → pop_frame a ≡ some (f, without_front a)
unfolding pop_frame
pop_frame-front a f h = ap pop_frame h

pop_frame_empty : (a : List Frame) → a ≡ [] → pop_frame a ≡ none
unfolding pop_frame
pop_frame_empty [] h = refl
pop_frame_empty (g ∷ a) h = cc

pub Move-Leaves :
    {i : ℕ} {q q' : List Frame} {p p' : Point} {act : Action} {ops : List Op} (a : List Frame)
    → Move i q p act ops q' p'
    → Needs act p q a
    → (a' : List Frame) × Extends a ops a' × Leaves act p p' q q' a a'
Move-Leaves a (in_push (PushMove.called f)) v = (a, no_op_more a, (tt, λ o. (refl, refl)))
Move-Leaves a (in_push (PushMove.locked f)) v = (a, no_op_more a, v)
Move-Leaves a (in_push (PushMove.trimmed f)) v = (a, no_op_more a, (ap trim v, λ o. cc))
Move-Leaves {i} a (in_push (PushMove.added f)) v = (
  push_frame a f,
  λ ops r. pushes i f r,
  (ap (λ q. q ++ f ∷ []) v ∙ sym (trimmed-push_frame a f), λ o. cc),
)
Move-Leaves a (in_push PushMove.done) v = (a, no_op_more a, (tt, v))
Move-Leaves a (in_pop PopMove.called) v = (a, no_op_more a, (tt, λ o. (refl, refl)))
Move-Leaves a (in_pop PopMove.locked) v = (a, no_op_more a, v)
Move-Leaves a (in_pop (PopMove.found late h)) v = (a, no_op_more a, ((v, h), λ o. cc))
Move-Leaves a (in_pop (PopMove.waits h)) v = (a, no_op_more a, (tt, v))
Move-Leaves {i} a (in_pop (PopMove.late h)) v =
    (a, λ ops r. misses i r (pop_frame_empty a (sym v ∙ h)), (v, λ o. cc))
Move-Leaves a (in_pop (PopMove.wakes late)) v = (a, no_op_more a, (tt, λ o. (refl, refl)))
Move-Leaves a (in_pop (PopMove.relocked late)) v = (a, no_op_more a, v)
Move-Leaves a (in_pop (PopMove.front f rest h)) (v, ne) =
    (a, no_op_more a, ((v, h ∙ ap (λ x. f ∷ x) (sym (ap without_front h))), λ o. cc))
Move-Leaves {i} a (in_pop (PopMove.took f)) (v, h) = (
  without_front a,
  λ ops r. pops i f r (pop_frame-front a f (sym v ∙ h ∙ ap (λ x. f ∷ without_front x) v)),
  (ap without_front v, λ o. cc),
)
Move-Leaves a (in_pop (PopMove.done r)) v = (a, no_op_more a, (tt, v))
Move-Leaves a (in_pop (PopMove.used r)) v = (a, no_op_more a, (tt, λ o. (refl, refl)))
