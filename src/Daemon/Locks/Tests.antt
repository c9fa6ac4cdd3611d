-- ===== src/Daemon/Locks/Tests.antt =====
-- A run of threads: a client waits for the network's update, and that for the port, which the monitor
-- reads.
use kaonic_comm.Shared.{ℕ, ◌≡◌, ◌≢◌, refl, ◌⊎◌, some, arith, get_elem?}
use kaonic_comm.Daemon.Locks.{
  port, network, leaf, Point, idle, entering_update, updating, calling, entering_transmit, entering,
  inside, quiet, acquires, UpdateMove, TransmitMove, PortMove, Move, in_update, in_transmit,
  in_port, Threads, owned, Action, Admits, act, step, at_rest, Reach, start, later,
}
use kaonic_comm.Daemon.Locks.Moves.{HoldsAt}
use kaonic_comm.Daemon.Locks.Owners.{reach-excludes}
use kaonic_comm.Daemon.Locks.Progress.{CanMove, WaitsFor, reach-CanMove}

-- The thread 0 is the one of `update` of the network 0, 1 is a client's, and 2 the monitor.
abbrev Stage : Type 0
Stage = (w : Threads) × Reach 3 w

unfoldable goes :
    (s : Stage) (i : ℕ) (p : Point) (a : Action) (q : Point)
    → get_elem? s.0.points i ≡ some p
    → Move p a q
    → Admits s.0.owner a
    → Stage
goes s i p a q at move admits = (_, later i s.1 (step p a q at move admits))

unfoldable monitored : Stage
unfolding goes act owned
monitored =
    let s1 =
      goes (at_rest 3, start) 2 idle quiet (entering port) refl (in_port PortMove.called) tt in
    goes s1 2 (entering port) (acquires (leaf port)) (inside port) refl (in_port PortMove.locked)
      refl

unfoldable blocked : Stage
unfolding goes act owned monitored
blocked =
    let s1 =
      goes monitored 0 idle quiet (entering_update 0) refl (in_update (UpdateMove.called 0)) tt in
    let s2 =
      goes s1 0 (entering_update 0) (acquires (network 0)) (updating 0) refl
        (in_update (UpdateMove.locked 0)) refl in
    let s3 =
      goes s2 0 (updating 0) quiet (calling 0 port) refl (in_update (UpdateMove.receives 0 port))
        tt in
    goes s3 1 idle quiet (entering_transmit 0) refl (in_transmit (TransmitMove.called 0)) tt

zero-ne-one : ◌≢◌ {A = ℕ} 0 1
zero-ne-one e = omega arith

reach-excludes_example : ¬ HoldsAt blocked.0 1 (network 0)
unfolding blocked goes act owned monitored
reach-excludes_example =
    reach-excludes 0 1 (network 0) blocked.1 zero-ne-one (calling 0 port, refl, refl)

reach-CanMove_example :
    CanMove blocked.0 1
    ⊎ ((j : ℕ) × WaitsFor blocked.0 1 j
        × (CanMove blocked.0 j ⊎ ((k : ℕ) × WaitsFor blocked.0 j k × CanMove blocked.0 k)))
unfolding blocked goes act owned monitored
reach-CanMove_example = reach-CanMove 1 blocked.1 (omega arith)
