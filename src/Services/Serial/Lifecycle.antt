-- ===== src/Services/Serial/Lifecycle.antt =====
-- start_tx, stop_tx and the destructor of serial_service in
-- kaonic/src/comm/services/serial_service.cpp: the steps that the caller and the monitor thread take
-- in any order. Calls of start_tx and stop_tx are taken to come one after the other, as one owner
-- makes them: two that overlap, which would both assign to `_rx_thread`, are left out.
pub mod Laws
mod Tests
use kaonic_comm.Shared.{ℕ, ◌+◌, ◌≡◌, Bool, true, false, ◌||◌, List, [], ◌∷◌}

-- The thread in `_rx_thread`: `checking` is about to test `_is_active`, `passing` is in the body of
-- the loop of `tx`, `finished` has left the loop and can still be joined.
pub data Thread : Type 0 where
  absent checking passing finished : Thread

-- `joinable()`
abbrev pub is_joinable : Thread → Bool
is_joinable absent = false
is_joinable _ = true

-- Where the caller is: outside, in `start_tx` before the creation of the thread, or in `stop_tx`
-- before `join`.
pub data Caller : Type 0 where
  outside starting stopping : Caller

-- `terminated`: a joinable thread was assigned to or destroyed, which ends the process. `passes`
-- counts the passes of the loop.
pub record Monitor : Type 0 where
  pub is_active : Bool
  pub rx_thread : Thread
  pub caller : Caller
  pub terminated : Bool
  pub passes : ℕ

unfoldable pub monitor : Monitor
monitor = record {
  is_active = false;
  rx_thread = absent;
  caller = outside;
  terminated = false;
  passes = 0;
}

-- Who takes a step.
pub data Action : Type 0 where
  start stop pass : Action

pub data Step : Action → Monitor → Monitor → Type 0 where
  start_refused : (n : Monitor) → n.caller ≡ outside → n.is_active ≡ true → Step start n n
  start_stored :
      (n : Monitor)
      → n.caller ≡ outside
      → n.is_active ≡ false
      → Step start n (record n { is_active = true; caller = starting })
  spawned :
      (n : Monitor)
      → n.caller ≡ starting
      → Step start n (record n {
        rx_thread = checking;
        caller = outside;
        terminated = n.terminated || is_joinable n.rx_thread;
      })
  stop_refused : (n : Monitor) → n.caller ≡ outside → n.is_active ≡ false → Step stop n n
  stop_stored :
      (n : Monitor)
      → n.caller ≡ outside
      → n.is_active ≡ true
      → Step stop n (record n { is_active = false; caller = stopping })
  joined :
      (n : Monitor)
      → n.caller ≡ stopping
      → n.rx_thread ≡ finished
      → Step stop n (record n { rx_thread = absent; caller = outside })
  not_joinable :
      (n : Monitor)
      → n.caller ≡ stopping
      → n.rx_thread ≡ absent
      → Step stop n (record n { caller = outside })
  looped :
      (n : Monitor)
      → n.rx_thread ≡ checking
      → n.is_active ≡ true
      → Step pass n (record n { rx_thread = passing })
  left :
      (n : Monitor)
      → n.rx_thread ≡ checking
      → n.is_active ≡ false
      → Step pass n (record n { rx_thread = finished })
  passed :
      (n : Monitor)
      → n.rx_thread ≡ passing
      → Step pass n (record n { rx_thread = checking; passes = n.passes + 1 })

-- The steps of these actions, in order.
pub data Run : List Action → Monitor → Monitor → Type 0 where
  done : (n : Monitor) → Run [] n n
  then :
      {a : Action} {rest : List Action} {n m o : Monitor}
      → Step a n m
      → Run rest m o
      → Run (a ∷ rest) n o

-- The destructor, behind `close`: the members are destroyed, the thread among them.
unfoldable pub destroy : Monitor → Monitor
destroy n = record n { terminated = n.terminated || is_joinable n.rx_thread }
