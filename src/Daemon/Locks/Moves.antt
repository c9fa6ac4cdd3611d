-- ===== src/Daemon/Locks/Moves.antt =====
-- Which mutexes a thread holds where it stands, and what a step does to them.
use kaonic_comm.Shared.{ℕ, ◌≡◌, ◌≢◌, refl, ◌↔◌, ◌⊎◌, inl, some, arith, get_elem?}
use kaonic_comm.Daemon.Locks.{
  Lock, network, leaf, Point, idle, entering_update, updating, calling, telling, entering_transmit,
  testing, entering, inside, Action, quiet, acquires, releases, UpdateMove, TransmitMove, QueueMove,
  PortMove, Move, in_update, in_transmit, in_queue, in_port, Threads,
}

-- Between its lock of the mutex and its unlock.
abbrev pub Holds : Point → Lock → Type 0
Holds idle k = ⊥
Holds (entering_update m) k = ⊥
Holds (updating m) k = k ≡ network m
Holds (calling m l) k = k ≡ network m
Holds (telling m l) k = (k ≡ leaf l) ⊎ (k ≡ network m)
Holds (entering_transmit m) k = ⊥
Holds (testing m) k = k ≡ network m
Holds (entering l) k = ⊥
Holds (inside l) k = k ≡ leaf l

abbrev pub HoldsAt : Threads → ℕ → Lock → Type 0
HoldsAt w i k = (p : Point) × (get_elem? w.points i ≡ some p) × Holds p k

-- The owner of each mutex holds it, and no other thread does.
abbrev pub IsOwned : Threads → Type 0
IsOwned w = (k : Lock) (i : ℕ) → (w.owner k ≡ some i) ↔ HoldsAt w i k

-- What an action makes of a property that says that the mutex `k` is held.
abbrev pub After : Action → Lock → Type 0 → Type 0
After quiet k held = held
After (acquires l) k held = (k ≡ l) ⊎ held
After (releases l) k held = (k ≢ l) × held

update-Holds :
    {p q : Point} {a : Action} → UpdateMove p a q → (k : Lock) → Holds q k ↔ After a k (Holds p k)
update-Holds (UpdateMove.called m) k = ground arith
update-Holds (UpdateMove.locked m) k = ground arith
update-Holds (UpdateMove.receives m l) k = ground arith
update-Holds (UpdateMove.told m l) k = ground arith
update-Holds (UpdateMove.back m l) k = ground arith
update-Holds (UpdateMove.done m) k = ground arith

transmit-Holds :
    {p q : Point} {a : Action} → TransmitMove p a q → (k : Lock) → Holds q k ↔ After a k (Holds p k)
transmit-Holds (TransmitMove.called m) k = ground arith
transmit-Holds (TransmitMove.locked m) k = ground arith
transmit-Holds (TransmitMove.busy m) k = ground arith
transmit-Holds (TransmitMove.sent m) k = ground arith

queue-Holds :
    {p q : Point} {a : Action} → QueueMove p a q → (k : Lock) → Holds q k ↔ After a k (Holds p k)
queue-Holds QueueMove.called k = ground arith
queue-Holds QueueMove.locked k = ground arith
queue-Holds QueueMove.waits k = ground arith
queue-Holds QueueMove.done k = ground arith

port-Holds :
    {p q : Point} {a : Action} → PortMove p a q → (k : Lock) → Holds q k ↔ After a k (Holds p k)
port-Holds PortMove.called k = ground arith
port-Holds PortMove.locked k = ground arith
port-Holds PortMove.done k = ground arith

pub Move-Holds :
    {p q : Point} {a : Action} → Move p a q → (k : Lock) → Holds q k ↔ After a k (Holds p k)
Move-Holds (in_update move) = update-Holds move
Move-Holds (in_transmit move) = transmit-Holds move
Move-Holds (in_queue move) = queue-Holds move
Move-Holds (in_port move) = port-Holds move

-- A mutex that is released is held before.
abbrev pub Releases : Action → Point → Type 0
Releases quiet p = Unit
Releases (acquires l) p = Unit
Releases (releases l) p = Holds p l

pub Move-Releases : {p q : Point} {a : Action} → Move p a q → Releases a p
Move-Releases (in_update (UpdateMove.called m)) = tt
Move-Releases (in_update (UpdateMove.locked m)) = tt
Move-Releases (in_update (UpdateMove.receives m l)) = tt
Move-Releases (in_update (UpdateMove.told m l)) = tt
Move-Releases (in_update (UpdateMove.back m l)) = inl refl
Move-Releases (in_update (UpdateMove.done m)) = refl
Move-Releases (in_transmit (TransmitMove.called m)) = tt
Move-Releases (in_transmit (TransmitMove.locked m)) = tt
Move-Releases (in_transmit (TransmitMove.busy m)) = refl
Move-Releases (in_transmit (TransmitMove.sent m)) = refl
Move-Releases (in_queue QueueMove.called) = tt
Move-Releases (in_queue QueueMove.locked) = tt
Move-Releases (in_queue QueueMove.waits) = refl
Move-Releases (in_queue QueueMove.done) = refl
Move-Releases (in_port PortMove.called) = tt
Move-Releases (in_port PortMove.locked) = tt
Move-Releases (in_port PortMove.done) = refl
