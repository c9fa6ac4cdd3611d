-- ===== src/Mesh/Update/Laws.antt =====
-- What start and stop of radio_network promise, and a start that is lost.
use kaonic_comm.Shared.{
  ℕ, ◌+◌, ◌≤◌, ◌≡◌, ◌≢◌, refl, ◌∙◌, sym, subst, ◌⊎◌, inl, inr, true, false, List, arith, length,
  All,
}
use kaonic_comm.Mesh.Update.{
  Thread, absent, checking, updating, finished, is_joinable, outside, stopping, RadioNetwork,
  radio_network, Action, stop, update, Step, start_refused, spawned, start_stored, stop_refused,
  stop_stored, joined, not_joinable, looped, left, updated, Run, done, then,
}

-- Outside of start and stop there is a thread exactly while the network is running; inside of both
-- there is one, and the network is not running.
abbrev pub IsConsistent : RadioNetwork → Type 0
IsConsistent n =
    (n.terminated ≡ false)
    × (n.caller ≡ outside → is_joinable n.thread ≡ n.running)
    × (n.caller ≢ outside → (n.running ≡ false) × (is_joinable n.thread ≡ true))

Step-IsConsistent : {a : Action} {n m : RadioNetwork} → Step a n m → IsConsistent n → IsConsistent m
Step-IsConsistent (start_refused n c r) h = h
Step-IsConsistent (spawned n c r) h = ground arith
Step-IsConsistent (start_stored n c) h = ground arith
Step-IsConsistent (stop_refused n c r) h = h
Step-IsConsistent (stop_stored n c r) h = ground arith
Step-IsConsistent (joined n c t) h = ground arith
Step-IsConsistent (not_joinable n c t) h = ground arith
Step-IsConsistent (looped n t r) h = ground arith
Step-IsConsistent (left n t r) h = ground arith
Step-IsConsistent (updated n t) h = ground arith

Run-IsConsistent :
    {actions : List Action} {n m : RadioNetwork} → Run actions n m → IsConsistent n → IsConsistent m
Run-IsConsistent (done n) h = h
Run-IsConsistent (then s r) h = Run-IsConsistent r (Step-IsConsistent s h)

-- Say the calls of start and stop of a new network come one after the other, so that no two of them
-- overlap, and the steps of the update thread between and during them in any order. In every state
-- that it then reaches, no joinable thread was assigned to, and while no call is under way there is a
-- thread exactly if the network is running: so none is left behind when `stop` has returned.
pub radio_network-IsConsistent :
    (actions : List Action) (n : RadioNetwork) → Run actions radio_network n → IsConsistent n
unfolding radio_network
radio_network-IsConsistent actions n r = Run-IsConsistent r (refl, λ c. refl, λ c. absurd (c refl))

-- A start whose thread has left the loop before `_running` was stored.
abbrev pub IsLost : RadioNetwork → Type 0
IsLost n = (n.running ≡ true) × (n.thread ≡ finished) × (n.caller ≡ outside)

Step-IsLost : {a : Action} {n m : RadioNetwork} → Step a n m → IsLost n → a ≢ stop → m ≡ n
Step-IsLost (start_refused n c r) h k = refl
Step-IsLost (spawned n c r) h k = ground arith
Step-IsLost (start_stored n c) h k = ground arith
Step-IsLost (stop_refused n c r) h k = refl
Step-IsLost (stop_stored n c r) h k = ground arith
Step-IsLost (joined n c t) h k = ground arith
Step-IsLost (not_joinable n c t) h k = ground arith
Step-IsLost (looped n t r) h k = ground arith
Step-IsLost (left n t r) h k = ground arith
Step-IsLost (updated n t) h k = ground arith

-- A network that runs, but whose thread left the loop before `start` stored `_running`, stays as it
-- is under every further start and every step of the thread: it is never updated again until it is
-- stopped.
Run-IsLost :
    {actions : List Action} {n m : RadioNetwork}
    → IsLost n
    → All (λ a. a ≢ stop) actions
    → Run actions n m
    → m ≡ n
Run-IsLost h k (done n) = refl
Run-IsLost h k (then s r) =
    let e = Step-IsLost s h k.0 in Run-IsLost (subst IsLost (sym e) h) k.1 r ∙ e

-- The steps that the thread has left once `_running` is false.
abbrev pub remaining : Thread → ℕ
remaining updating = 2
remaining checking = 1
remaining _ = 0

Step-remaining :
    {a : Action} {n m : RadioNetwork}
    → Step a n m
    → a ≡ update
    → n.running ≡ false
    → (m.caller ≡ n.caller)
      × (m.running ≡ false)
      × (remaining n.thread ≡ remaining m.thread + 1)
      × (is_joinable m.thread ≡ is_joinable n.thread)
Step-remaining (start_refused n c r) e h = ground arith
Step-remaining (spawned n c r) e h = ground arith
Step-remaining (start_stored n c) e h = ground arith
Step-remaining (stop_refused n c r) e h = ground arith
Step-remaining (stop_stored n c r) e h = ground arith
Step-remaining (joined n c t) e h = ground arith
Step-remaining (not_joinable n c t) e h = ground arith
Step-remaining (looped n t r) e h = ground arith
Step-remaining (left n t r) e h = ground arith
Step-remaining (updated n t) e h = ground arith

Run-remaining :
    {actions : List Action} {n m : RadioNetwork}
    → Run actions n m
    → All (λ a. a ≡ update) actions
    → n.running ≡ false
    → (m.caller ≡ n.caller)
      × (m.running ≡ false)
      × (remaining n.thread ≡ remaining m.thread + length actions)
      × (is_joinable m.thread ≡ is_joinable n.thread)
Run-remaining (done n) k h = (refl, h, omega arith, refl)
Run-remaining (then s r) k h =
    let (c, f, e, j) = Step-remaining s k.0 h in
    let (c', f', e', j') = Run-remaining r k.1 f in (c' ∙ c, f', omega arith, j' ∙ j)

remaining-le : (t : Thread) → remaining t ≤ 2
remaining-le t = ground arith

-- While `stop` waits, the thread takes two steps at most; and at each moment it can take one, or it
-- has finished and `stop` can return, with no thread left.
abbrev pub CanReturn : RadioNetwork → Type 0
CanReturn n =
    ((o : RadioNetwork) × Step update n o)
    ⊎ Step stop n (record n { thread = absent; caller = outside })

can_return :
    (n : RadioNetwork) (t : Thread)
    → n.thread ≡ t
    → n.caller ≡ stopping
    → n.running ≡ false
    → is_joinable n.thread ≡ true
    → CanReturn n
can_return n absent e c r h = ground arith
can_return n checking e c r h = inl (_, left n e r)
can_return n updating e c r h = inl (_, updated n e)
can_return n finished e c r h = inr (joined n c e)

not_outside : (n : RadioNetwork) → n.caller ≡ stopping → n.caller ≢ outside
not_outside n c d = ground arith

-- From a consistent state in which `stop` waits, the steps of the thread alone are two at most, and
-- after any of them the thread can take another step, or it has finished and `stop` returns with no
-- thread left and the network not running.
pub Run-CanReturn :
    (actions : List Action) (n m : RadioNetwork)
    → IsConsistent n
    → n.caller ≡ stopping
    → All (λ a. a ≡ update) actions
    → Run actions n m
    → (length actions ≤ 2) × (m.running ≡ false) × CanReturn m
Run-CanReturn actions n m h c k r =
    let (c', r', e, j) = Run-remaining r k (h.2 (not_outside n c)).0 in
    (
      omega (arith, remaining-le n.thread, e),
      r',
      can_return m m.thread refl (c' ∙ c) r' (j ∙ (h.2 (not_outside n c)).1),
    )
