-- ===== src/Mesh/Contention.antt =====
-- network::update and network::transmit (kaonic/src/comm/mesh/network.cpp) in their single steps, for
-- threads that run at the same time over one network: its mutex, the test of rfnet, the sleep, and
-- the call of rfnet_send. What rfnet_update leaves is any state. get_stats only reads.
pub mod Moves
pub mod Laws
mod Tests
use kaonic_comm.Shared.{
  Action, quiet, locks, unlocks, Admits, act, ℕ, ◌≡◌, ◌≢◌, Option, none, some, List, [], ◌∷◌, ◌++◌,
  get_elem?, set, replicate, ℤ, pos, if◌then◌else◌,
}
use kaonic_comm.Failure.{Error, ok, not_ready}
use kaonic_comm.Radio.{Frame}
use kaonic_comm.Radio.Rf215.Device.{is_success}
use kaonic_comm.Mesh.Network.{Rfnet}

-- Where a thread stands. In `transmit`, with the states that its tests have found busy, and behind
-- `rfnet_send` with the one that it was called in too.
pub data Point {ℓ} (N : Type ℓ) : Type ℓ where
  idle : Point N
  -- `update`: before its lock, behind it, and behind `rfnet_update`
  entering_update updating leaving_update : Point N
  -- `transmit`: before a lock, behind it, behind the unlock of a test that failed, and behind one that
  -- did not
  entering testing resting sending : Frame → List N → Point N
  -- behind `rfnet_send`, and behind the unlock
  answering answered : Frame → List N → N → Error → Point N

-- What has happened to rfnet: an update, with the state that it left, and a call of `rfnet_send`.
pub data Op {ℓ} (N : Type ℓ) : Type ℓ where
  updated : N → Op N
  sent : Frame → Op N

module _ {ℓ} {N : Type ℓ} (rfnet : Rfnet N) where
  -- What `transmit` returns behind `rfnet_send`.
  abbrev pub outcome : ℤ → Error
  outcome rc = if is_success rc then ok else not_ready

  -- A step of a thread, with the state of rfnet before it and behind it.
  pub data Move (n : N) : Point N → Action → List (Op N) → N → Point N → Type ℓ where
    called_update : Move n idle quiet [] n entering_update
    locked_update : Move n entering_update locks [] n updating
    updates : (n' : N) → Move n updating quiet (updated n' ∷ []) n' leaving_update
    done_update : Move n leaving_update unlocks [] n idle
    called : (f : Frame) → Move n idle quiet [] n (entering f [])
    locked : (f : Frame) (busy : List N) → Move n (entering f busy) locks [] n (testing f busy)
    waits :
        (f : Frame) (busy : List N)
        → rfnet.is_tx_free n ≢ pos 0
        → Move n (testing f busy) unlocks [] n (resting f (busy ++ n ∷ []))
    rested : (f : Frame) (busy : List N) → Move n (resting f busy) quiet [] n (entering f busy)
    finds :
        (f : Frame) (busy : List N)
        → rfnet.is_tx_free n ≡ pos 0
        → Move n (testing f busy) quiet [] n (sending f busy)
    sends :
        (f : Frame) (busy : List N)
        → Move n
            (sending f busy)
            quiet
            (sent f ∷ [])
            (rfnet.send n f).1
            (answering f busy n (outcome (rfnet.send n f).0))
    done :
        (f : Frame) (busy : List N) (m : N) (err : Error)
        → Move n (answering f busy m err) unlocks [] n (answered f busy m err)
    used :
        (f : Frame) (busy : List N) (m : N) (err : Error)
        → Move n (answered f busy m err) quiet [] n idle

-- rfnet, the thread that the mutex is locked by, and the threads.
pub record Contended {ℓ} (N : Type ℓ) : Type ℓ where
  pub state : N
  pub owner : Option ℕ
  pub points : List (Point N)

module _ {ℓ} {N : Type ℓ} (rfnet : Rfnet N) where
  -- A step of the thread `i`.
  pub data Step (w : Contended N) (i : ℕ) : List (Op N) → Contended N → Type ℓ where
    moves :
        (p : Point N) (a : Action) (ops : List (Op N)) (n : N) (p' : Point N)
        → get_elem? w.points i ≡ some p
        → Move rfnet w.state p a ops n p'
        → Admits w.owner a
        → Step w i ops (record { state = n; owner = act w.owner i a; points = set w.points i p' })

  -- The states that so many threads reach over a network, with what has happened to it, in order.
  pub data Reach (n : N) (threads : ℕ) : List (Op N) → Contended N → Type ℓ where
    start : Reach n threads [] (record { state = n; owner = none; points = replicate threads idle })
    later :
        {ops more : List (Op N)} {w v : Contended N} (i : ℕ)
        → Reach n threads ops w
        → Step w i more v
        → Reach n threads (ops ++ more) v
