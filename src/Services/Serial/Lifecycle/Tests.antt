-- ===== src/Services/Serial/Lifecycle/Tests.antt =====
-- A start, a pass of the loop, and a stop whose thread is still to end.
use kaonic_comm.Shared.{◌≡◌, refl, true, false, [], ◌∷◌}
use kaonic_comm.Services.Serial.Lifecycle.{
  checking, outside, Monitor, monitor, start, pass, start_stored, spawned, looped, passed, Run,
  done, then, destroy, is_joinable,
}
use kaonic_comm.Services.Serial.Lifecycle.Laws.{is_looping, monitor-destroy}

abbrev looping : Monitor
looping = record {
  is_active = true;
  rx_thread = checking;
  caller = outside;
  terminated = false;
  passes = 1;
}

started : Run (start ∷ start ∷ pass ∷ pass ∷ []) monitor looping
unfolding monitor
started =
    then (start_stored _ refl refl)
      (then (spawned _ refl) (then (looped _ refl refl) (then (passed _ refl) (done looping))))

monitor-destroy_example :
    (false ≡ false)
    × (is_looping looping.rx_thread ≡ true)
    × (is_joinable looping.rx_thread ≡ true)
    × ((destroy looping).terminated ≡ true)
monitor-destroy_example = monitor-destroy (start ∷ start ∷ pass ∷ pass ∷ []) looping started refl
