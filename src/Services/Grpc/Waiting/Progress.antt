-- ===== src/Services/Grpc/Waiting/Progress.antt =====
-- No thread is stuck in receive_frame or pop_frame: who waits for whom.
use kaonic_comm.Shared.{Action, Admits, ℕ, ◌≡◌, true, Option, some, List, get_elem?}
use kaonic_comm.Radio.{Frame}
use kaonic_comm.Services.Grpc.Waiting.{Point, Op, Move, Guarded, Step, moves}
use kaonic_comm.Services.Grpc.Waiting.Sections.{in_section}

-- The mutex is held by a thread in a section.
abbrev IsInside : Guarded → ℕ → Type 0
IsInside w i = (p : Point) × (get_elem? w.points i ≡ some p) × (in_section p ≡ true)

abbrev IsHeld : Guarded → Type 0
IsHeld w = (i : ℕ) → w.owner ≡ some i → IsInside w i

abbrev pub CanStep : Guarded → ℕ → Type 0
CanStep w i = (ops : List Op) × (v : Guarded) × Step w i ops v

-- A step that leaves the mutex alone, or releases it.
module _ (w : Guarded) (i : ℕ) where
  goes :
      (p : Point) (a : Action) {ops : List Op} {q : List Frame} {p' : Point}
      → get_elem? w.points i ≡ some p
      → Move i w.queue p a ops q p'
      → Admits w.owner a
      → CanStep w i
  goes p a {ops} {q} {p'} at m admits = (ops, _, moves p a ops q p' at m admits)

-- The thread waits for the mutex, which the thread `j` holds.
abbrev pub WaitsFor : Guarded → ℕ → Type 0
WaitsFor w j = w.owner ≡ some j
