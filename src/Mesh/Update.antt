-- ===== src/Mesh/Update.antt =====
-- start, stop and update of radio_network in kaonic/src/comm/mesh/radio_network.cpp: the steps that
-- the caller and the update thread take in any order. Calls of start and stop are taken to come one
-- after the other, as one owner makes them: two that overlap, which would both assign to
-- `_update_thread`, are left out.
pub mod Laws
mod Tests
use kaonic_comm.Shared.{ℕ, ◌+◌, ◌≡◌, Bool, true, false, ◌||◌, List, [], ◌∷◌}

-- The thread in `_update_thread`: `checking` is about to test `_running`, `updating` is in the body
-- of the loop, `finished` has left the loop and can still be joined.
pub data Thread : Type 0 where
  absent checking updating finished : Thread

-- `joinable()`
abbrev pub is_joinable : Thread → Bool
is_joinable absent = false
is_joinable _ = true

-- Where the caller is: outside, in `start` behind the creation of the thread, or in `stop` before
-- `join`.
pub data Caller : Type 0 where
  outside starting stopping : Caller

-- `terminated`: a joinable thread was assigned to, which ends the process. `updates` counts the
-- calls of `_network_mesh.update()`.
pub record RadioNetwork : Type 0 where
  pub running : Bool
  pub thread : Thread
  pub caller : Caller
  pub terminated : Bool
  pub updates : ℕ

unfoldable pub radio_network : RadioNetwork
radio_network = record {
  running = false;
  thread = absent;
  caller = outside;
  terminated = false;
  updates = 0;
}

-- Who takes a step.
pub data Action : Type 0 where
  start stop update : Action

pub data Step : Action → RadioNetwork → RadioNetwork → Type 0 where
  start_refused : (n : RadioNetwork) → n.caller ≡ outside → n.running ≡ true → Step start n n
  spawned :
      (n : RadioNetwork)
      → n.caller ≡ outside
      → n.running ≡ false
      → Step start n (record n {
        thread = checking;
        caller = starting;
        terminated = n.terminated || is_joinable n.thread;
      })
  start_stored :
      (n : RadioNetwork)
      → n.caller ≡ starting
      → Step start n (record n { running = true; caller = outside })
  stop_refused : (n : RadioNetwork) → n.caller ≡ outside → n.running ≡ false → Step stop n n
  stop_stored :
      (n : RadioNetwork)
      → n.caller ≡ outside
      → n.running ≡ true
      → Step stop n (record n { running = false; caller = stopping })
  joined :
      (n : RadioNetwork)
      → n.caller ≡ stopping
      → n.thread ≡ finished
      → Step stop n (record n { thread = absent; caller = outside })
  not_joinable :
      (n : RadioNetwork)
      → n.caller ≡ stopping
      → n.thread ≡ absent
      → Step stop n (record n { caller = outside })
  looped :
      (n : RadioNetwork)
      → n.thread ≡ checking
      → n.running ≡ true
      → Step update n (record n { thread = updating })
  left :
      (n : RadioNetwork)
      → n.thread ≡ checking
      → n.running ≡ false
      → Step update n (record n { thread = finished })
  updated :
      (n : RadioNetwork)
      → n.thread ≡ updating
      → Step update n (record n { thread = checking; updates = n.updates + 1 })

-- The steps of these actions, in order.
pub data Run : List Action → RadioNetwork → RadioNetwork → Type 0 where
  done : (n : RadioNetwork) → Run [] n n
  then :
      {a : Action} {rest : List Action} {n m o : RadioNetwork}
      → Step a n m
      → Run rest m o
      → Run (a ∷ rest) n o
