-- ===== src/Services/Serial/Lifecycle/Laws.antt =====
-- What start_tx and stop_tx of serial_service promise.
use kaonic_comm.Shared.{◌≡◌, Bool, true, false, List, arith}
use kaonic_comm.Services.Serial.Lifecycle.{
  Thread, absent, checking, passing, is_joinable, outside, starting, stopping, Monitor, monitor,
  Action, Step, start_refused, start_stored, spawned, stop_refused, stop_stored, joined,
  not_joinable, looped, left, passed, Run, done, then, destroy,
}

-- The thread is in the loop.
abbrev pub is_looping : Thread → Bool
is_looping checking = true
is_looping passing = true
is_looping _ = false

-- Outside of both functions the thread loops while the service is active, and there is none
-- otherwise; `start_tx` makes one where there is none, and `stop_tx` waits for one.
abbrev IsMonitored : Monitor → Type 0
IsMonitored n =
    (n.terminated ≡ false)
    × (n.caller ≡ outside → is_looping n.rx_thread ≡ n.is_active)
    × (n.caller ≡ outside → is_joinable n.rx_thread ≡ n.is_active)
    × (n.caller ≡ starting → (n.is_active ≡ true) × (n.rx_thread ≡ absent))
    × (n.caller ≡ stopping → (n.is_active ≡ false) × (is_joinable n.rx_thread ≡ true))

Step-IsMonitored : {a : Action} {n m : Monitor} → Step a n m → IsMonitored n → IsMonitored m
Step-IsMonitored (start_refused n c r) h = h
Step-IsMonitored (start_stored n c r) h = ground arith
Step-IsMonitored (spawned n c) h = ground arith
Step-IsMonitored (stop_refused n c r) h = h
Step-IsMonitored (stop_stored n c r) h = ground arith
Step-IsMonitored (joined n c t) h = ground arith
Step-IsMonitored (not_joinable n c t) h = ground arith
Step-IsMonitored (looped n t r) h = ground arith
Step-IsMonitored (left n t r) h = ground arith
Step-IsMonitored (passed n t) h = ground arith

Run-IsMonitored :
    {actions : List Action} {n m : Monitor} → Run actions n m → IsMonitored n → IsMonitored m
Run-IsMonitored (done n) h = h
Run-IsMonitored (then s r) h = Run-IsMonitored r (Step-IsMonitored s h)

-- Say the calls of start_tx and stop_tx of a new service come one after the other, so that no two of
-- them overlap, and the steps of the monitor thread between and during them in any order. In every
-- state that it then reaches in which neither call is under way: no joinable thread was assigned to; if the service is active its
-- thread is in the loop, so no start is lost, and if it is not there is no thread; and destroying the
-- service ends the process exactly if it is active.
pub monitor-destroy :
    (actions : List Action) (n : Monitor)
    → Run actions monitor n
    → n.caller ≡ outside
    → (n.terminated ≡ false)
      × (is_looping n.rx_thread ≡ n.is_active)
      × (is_joinable n.rx_thread ≡ n.is_active)
      × ((destroy n).terminated ≡ n.is_active)
unfolding monitor destroy
monitor-destroy actions n r c =
    let h : IsMonitored n = Run-IsMonitored r (ground arith) in (h.0, h.1 c, h.2 c, rw h.0 (h.2 c))
