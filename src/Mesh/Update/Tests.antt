-- ===== src/Mesh/Update/Tests.antt =====
-- Instances of the theorems on start and stop, at the shortest runs that show them.
use kaonic_comm.Shared.{◌≤◌, ◌≡◌, ◌≢◌, refl, true, false, [], ◌∷◌, arith, length}
use kaonic_comm.Mesh.Update.{
  checking, updating, finished, outside, stopping, RadioNetwork, radio_network, start, stop, update,
  start_refused, spawned, start_stored, left, updated, Run, done, then,
}
use kaonic_comm.Mesh.Update.Laws.{
  IsConsistent, radio_network-IsConsistent, CanReturn, Run-CanReturn,
}

abbrev lost : RadioNetwork
lost = record {
  running = true;
  thread = finished;
  caller = outside;
  terminated = false;
  updates = 0;
}

-- The thread leaves the loop between its creation and the store to `_running`.
reaches_lost : Run (start ∷ update ∷ start ∷ []) radio_network lost
unfolding radio_network
reaches_lost =
    then (spawned _ refl refl) (then (left _ refl refl) (then (start_stored _ refl) (done _)))

radio_network-IsConsistent_example : IsConsistent lost
radio_network-IsConsistent_example =
    radio_network-IsConsistent (start ∷ update ∷ start ∷ []) lost reaches_lost

starts_again : Run (start ∷ start ∷ []) lost lost
starts_again = then (start_refused _ refl refl) (then (start_refused _ refl refl) (done _))

start_is_not_stop : start ≢ stop
start_is_not_stop e = ground arith

abbrev waiting : RadioNetwork
waiting = record {
  running = false;
  thread = updating;
  caller = stopping;
  terminated = false;
  updates = 3;
}

abbrev waiting_less : RadioNetwork
waiting_less = record waiting { thread = checking; updates = 4 }

waiting-IsConsistent : IsConsistent waiting
waiting-IsConsistent = (refl, λ c. ground arith, λ c. (refl, refl))

updates_once : Run (update ∷ []) waiting waiting_less
updates_once = then (updated _ refl) (done _)

Run-CanReturn_example :
    (length (update ∷ []) ≤ 2) × (waiting_less.running ≡ false) × CanReturn waiting_less
Run-CanReturn_example =
    Run-CanReturn (update ∷ []) waiting waiting_less waiting-IsConsistent refl (refl, tt)
      updates_once
