-- ===== src/Services/Grpc/Waiting/Results.antt =====
-- The results of pop_frame, for calls that run at the same time.
use kaonic_comm.Shared.{ℕ, ◌==◌, ◌≡◌, Option, none, some, List, [], ◌∷◌, get_elem?, if◌then◌else◌}
use kaonic_comm.Radio.{Frame}
use kaonic_comm.Services.Grpc.Waiting.{
  Point, idle, calling_push, pushing, adding, notifying, unlocking, calling_pop, testing, sleeping,
  woken, taking, popping, leaving, returned, Op, pushed, popped, Guarded,
}

-- The result of the last call of `pop_frame` of the thread `i`, `none` if it has none.
abbrev pub result_of : ℕ → List Op → Option (Option Frame) → Option (Option Frame)
result_of i [] last = last
result_of i (pushed j f ∷ ops) last = result_of i ops last
result_of i (popped j r ∷ ops) last = result_of i ops (if j == i then some r else last)

-- What a point that has a result says of it.
abbrev Gives : Point → Option (Option Frame) → Type 0
Gives idle last = Unit
Gives (calling_push f) last = Unit
Gives (pushing f) last = Unit
Gives (adding f) last = Unit
Gives notifying last = Unit
Gives unlocking last = Unit
Gives calling_pop last = Unit
Gives (testing late) last = Unit
Gives sleeping last = Unit
Gives (woken late) last = Unit
Gives taking last = Unit
Gives (popping f) last = Unit
Gives (leaving r) last = last ≡ some r
Gives (returned r) last = last ≡ some r

-- Every thread with a result has the one of its last call.
abbrev IsGiven : List Op → Guarded → Type 0
IsGiven ops w = (i : ℕ) (p : Point) → get_elem? w.points i ≡ some p → Gives p (result_of i ops none)
