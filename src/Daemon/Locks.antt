-- ===== src/Daemon/Locks.antt =====
-- The mutexes of the daemon, and the threads that lock them: `_mut` of each network
-- (kaonic/src/comm/mesh/network.cpp), of the queue of grpc_service
-- (kaonic/src/comm/services/grpc_service.cpp) and of the serial port
-- (kaonic/src/comm/serial/serial.cpp). A thread of `update` of a network, one of the server and the
-- monitor of the serial port call these functions in their own order; here any thread calls any of
-- them, in any order, so the daemon's threads are among those of the model. `get_stats` of a network,
-- which locks its mutex for its whole body too, has no caller. What a function does behind its lock,
-- rfnet and the system calls included, is taken to return.
pub mod Moves
pub mod Owners
pub mod Progress
mod Tests
use mathlib.Core.Logic.{ite}
use native.Mathlib.Decide.{ℕ_discrete}
use kaonic_comm.Shared.{ℕ, ◌≡◌, ◌⊎◌, Option, none, some, List, get_elem?, set, replicate}

-- The mutexes that are locked last: that of the queue of frames and that of the serial port.
pub data Leaf : Type 0 where
  queue port : Leaf

pub data Lock : Type 0 where
  network : ℕ → Lock
  leaf : Leaf → Lock

unfoldable pub Lock-discrete : Discrete Lock
Lock-discrete = hlevel (ℕ_discrete)

-- Where a thread stands. With a number: in a function of the network of that number.
pub data Point : Type 0 where
  -- in none of the functions
  idle : Point
  -- before the lock of `update`, and behind it
  entering_update updating : ℕ → Point
  -- in `update`, in a listener that is called: before its lock, and behind it
  calling telling : ℕ → Leaf → Point
  -- before a lock of `transmit`, the one behind the sleep included, and behind it
  entering_transmit testing : ℕ → Point
  -- in a function of the queue or the port that `update` does not call: before its lock, behind it
  entering inside : Leaf → Point

-- What a step does to a mutex.
pub data Action : Type 0 where
  quiet : Action
  acquires releases : Lock → Action

-- `network::update`: `rfnet_update` calls `on_receive`, and with it the listeners, any number of
-- times.
pub data UpdateMove : Point → Action → Point → Type 0 where
  called : (m : ℕ) → UpdateMove idle quiet (entering_update m)
  locked : (m : ℕ) → UpdateMove (entering_update m) (acquires (network m)) (updating m)
  receives : (m : ℕ) (l : Leaf) → UpdateMove (updating m) quiet (calling m l)
  told : (m : ℕ) (l : Leaf) → UpdateMove (calling m l) (acquires (leaf l)) (telling m l)
  back : (m : ℕ) (l : Leaf) → UpdateMove (telling m l) (releases (leaf l)) (updating m)
  done : (m : ℕ) → UpdateMove (updating m) (releases (network m)) idle

-- `network::transmit`: after its test it releases the mutex, to sleep or, behind `rfnet_send`, for
-- good.
pub data TransmitMove : Point → Action → Point → Type 0 where
  called : (m : ℕ) → TransmitMove idle quiet (entering_transmit m)
  locked : (m : ℕ) → TransmitMove (entering_transmit m) (acquires (network m)) (testing m)
  busy : (m : ℕ) → TransmitMove (testing m) (releases (network m)) (entering_transmit m)
  sent : (m : ℕ) → TransmitMove (testing m) (releases (network m)) idle

-- `pop_frame`: `wait_for` releases the mutex and locks it again.
pub data QueueMove : Point → Action → Point → Type 0 where
  called : QueueMove idle quiet (entering queue)
  locked : QueueMove (entering queue) (acquires (leaf queue)) (inside queue)
  waits : QueueMove (inside queue) (releases (leaf queue)) (entering queue)
  done : QueueMove (inside queue) (releases (leaf queue)) idle

-- `read`, `write` and `close` of the serial port.
pub data PortMove : Point → Action → Point → Type 0 where
  called : PortMove idle quiet (entering port)
  locked : PortMove (entering port) (acquires (leaf port)) (inside port)
  done : PortMove (inside port) (releases (leaf port)) idle

pub data Move (p : Point) (a : Action) (q : Point) : Type 0 where
  in_update : UpdateMove p a q → Move p a q
  in_transmit : TransmitMove p a q → Move p a q
  in_queue : QueueMove p a q → Move p a q
  in_port : PortMove p a q → Move p a q

-- The threads, and the thread that each mutex is locked by.
pub record Threads : Type 0 where
  pub points : List Point
  pub owner : Lock → Option ℕ

unfoldable pub owned : (Lock → Option ℕ) → Lock → Option ℕ → Lock → Option ℕ
unfolding Lock-discrete
owned owner l who k = ite (Lock-discrete k l) who (owner k)

-- A locked mutex cannot be locked.
abbrev pub Admits : (Lock → Option ℕ) → Action → Type 0
Admits owner quiet = Unit
Admits owner (acquires l) = owner l ≡ none
Admits owner (releases l) = Unit

pub act : (Lock → Option ℕ) → ℕ → Action → Lock → Option ℕ
unfolding owned
act owner i quiet = owner
act owner i (acquires l) = owned owner l (some i)
act owner i (releases l) = owned owner l none

-- A step of the thread `i`.
pub data Step (w : Threads) (i : ℕ) : Threads → Type 0 where
  step :
      (p : Point) (a : Action) (q : Point)
      → get_elem? w.points i ≡ some p
      → Move p a q
      → Admits w.owner a
      → Step w i (record { points = set w.points i q; owner = act w.owner i a })

-- So many threads, in none of the functions.
abbrev pub at_rest : ℕ → Threads
at_rest n = record { points = replicate n idle; owner = λ l. none }

pub data Reach (n : ℕ) : Threads → Type 0 where
  start : Reach n (at_rest n)
  later : {w v : Threads} (i : ℕ) → Reach n w → Step w i v → Reach n v
