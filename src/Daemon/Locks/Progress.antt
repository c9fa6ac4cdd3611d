-- ===== src/Daemon/Locks/Progress.antt =====
-- No thread waits for ever for lack of a thread that can go on.
use mathlib.Core.Option.{some-injective, some-ne-none}
use kaonic_comm.Shared.{
  ℕ, ◌<◌, ◌≡◌, refl, sym, subst, ◌⊎◌, inl, inr, Option, none, some, length, get_elem?,
  get_elem?-some, Option-cases,
}
use kaonic_comm.Daemon.Locks.{
  Leaf, queue, port, Lock, network, leaf, Point, idle, entering_update, updating, calling, telling,
  entering_transmit, testing, entering, inside, Action, acquires, UpdateMove, TransmitMove,
  QueueMove, PortMove, Move, in_update, in_transmit, in_queue, in_port, Threads, Admits, Step, step,
  Reach,
}
use kaonic_comm.Daemon.Locks.Moves.{Holds, IsOwned}
use kaonic_comm.Daemon.Locks.Owners.{reach-IsOwned}

-- The thread can take a step.
abbrev pub CanMove : Threads → ℕ → Type 0
CanMove w i = (v : Threads) × Step w i v

-- The mutex that the next step of a thread locks.
abbrev pub wanted : Point → Option Lock
wanted idle = none
wanted (entering_update m) = some (network m)
wanted (updating m) = none
wanted (calling m l) = some (leaf l)
wanted (telling m l) = none
wanted (entering_transmit m) = some (network m)
wanted (testing m) = none
wanted (entering l) = some (leaf l)
wanted (inside l) = none

-- The thread `i` stands before the lock of a mutex whose owner is `j`.
abbrev pub WaitsFor : Threads → ℕ → ℕ → Type 0
WaitsFor w i j =
    (p : Point) × (k : Lock) × (get_elem? w.points i ≡ some p)
    × (wanted p ≡ some k)
    × (w.owner k ≡ some j)

-- The next step of a thread that locks no mutex with it.
abbrev Free : Point → Type 0
Free p = (a : Action) × (q : Point) × Move p a q × ((owner : Lock → Option ℕ) → Admits owner a)

free : (p : Point) → wanted p ≡ none → Free p
free idle e = (_, _, in_queue QueueMove.called, λ o. tt)
free (entering_update m) e = absurd (some-ne-none _ e)
free (updating m) e = (_, _, in_update (UpdateMove.done m), λ o. tt)
free (calling m l) e = absurd (some-ne-none _ e)
free (telling m l) e = (_, _, in_update (UpdateMove.back m l), λ o. tt)
free (entering_transmit m) e = absurd (some-ne-none _ e)
free (testing m) e = (_, _, in_transmit (TransmitMove.sent m), λ o. tt)
free (entering l) e = absurd (some-ne-none _ e)
free (inside queue) e = (_, _, in_queue QueueMove.done, λ o. tt)
free (inside port) e = (_, _, in_port PortMove.done, λ o. tt)

into :
    {p q : Point} {l k : Lock}
    → Move p (acquires l) q
    → some l ≡ some k
    → (r : Point) × Move p (acquires k) r
into {p = p} {q = q} move e = (q, subst (λ x. Move p (acquires x) q) (some-injective _ _ e) move)

enters : (p : Point) (k : Lock) → wanted p ≡ some k → (q : Point) × Move p (acquires k) q
enters idle k e = absurd (some-ne-none _ (sym e))
enters (entering_update m) k e = into (in_update (UpdateMove.locked m)) e
enters (updating m) k e = absurd (some-ne-none _ (sym e))
enters (calling m l) k e = into (in_update (UpdateMove.told m l)) e
enters (telling m l) k e = absurd (some-ne-none _ (sym e))
enters (entering_transmit m) k e = into (in_transmit (TransmitMove.locked m)) e
enters (testing m) k e = absurd (some-ne-none _ (sym e))
enters (entering queue) k e = into (in_queue QueueMove.locked) e
enters (entering port) k e = into (in_port PortMove.locked) e
enters (inside l) k e = absurd (some-ne-none _ (sym e))

-- Who holds a leaf wants nothing; who holds a network wants nothing or a leaf.
leaf_last : (p : Point) (l : Leaf) → Holds p (leaf l) → wanted p ≡ none
leaf_last idle l h = absurd h
leaf_last (entering_update m) l h = absurd h
leaf_last (updating m) l h = refl
leaf_last (calling m l') l h = cc
leaf_last (telling m l') l h = refl
leaf_last (entering_transmit m) l h = absurd h
leaf_last (testing m) l h = refl
leaf_last (entering l') l h = absurd h
leaf_last (inside l') l h = refl

network_before :
    (p : Point) (m : ℕ)
    → Holds p (network m)
    → (wanted p ≡ none) ⊎ ((l : Leaf) × (wanted p ≡ some (leaf l)))
network_before idle m h = absurd h
network_before (entering_update m') m h = absurd h
network_before (updating m') m h = inl refl
network_before (calling m' l) m h = inr (l, refl)
network_before (telling m' l) m h = inl refl
network_before (entering_transmit m') m h = absurd h
network_before (testing m') m h = inl refl
network_before (entering l) m h = absurd h
network_before (inside l) m h = inl refl

module _ (w : Threads) where
  moves_free : (i : ℕ) (p : Point) → get_elem? w.points i ≡ some p → wanted p ≡ none → CanMove w i
  moves_free i p at e =
      let (a, q, move, admits) = free p e in (_, step p a q at move (admits w.owner))

  moves_in :
      (i : ℕ) (p : Point) (k : Lock)
      → get_elem? w.points i ≡ some p
      → wanted p ≡ some k
      → w.owner k ≡ none
      → CanMove w i
  moves_in i p k at e unlocked =
      let (q, move) = enters p k e in (_, step p (acquires k) q at move unlocked)

  module _ (o : IsOwned w) where
    owner_moves : (l : Leaf) (j : ℕ) → w.owner (leaf l) ≡ some j → CanMove w j
    owner_moves l j e = let (p, at, h) = (o (leaf l) j).0 e in moves_free j p at (leaf_last p l h)

    -- A thread before the lock of a leaf.
    before_leaf :
        (i : ℕ) (p : Point) (l : Leaf)
        → get_elem? w.points i ≡ some p
        → wanted p ≡ some (leaf l)
        → CanMove w i ⊎ ((j : ℕ) × WaitsFor w i j × CanMove w j)
    before_leaf i p l at e = elim (Option-cases (w.owner (leaf l))) [
      | inl unlocked ↦ inl (moves_in i p (leaf l) at e unlocked)
      | inr (j, locked) ↦ inr (j, (p, leaf l, at, e, locked), owner_moves l j locked)
    ]

    network_owner :
        (m j : ℕ)
        → w.owner (network m) ≡ some j
        → CanMove w j ⊎ ((k : ℕ) × WaitsFor w j k × CanMove w k)
    network_owner m j e =
        let (p, at, h) = (o (network m) j).0 e in
        elim (network_before p m h) [
          | inl none_wanted ↦ inl (moves_free j p at none_wanted)
          | inr (l, want) ↦ before_leaf j p l at want
        ]

    before_lock :
        (i : ℕ) (p : Point) (k : Lock)
        → get_elem? w.points i ≡ some p
        → wanted p ≡ some k
        → CanMove w i
          ⊎ ((j : ℕ) × WaitsFor w i j × (CanMove w j ⊎ ((n : ℕ) × WaitsFor w j n × CanMove w n)))
    before_lock i p (leaf l) at e = elim (before_leaf i p l at e) [
      | inl moves ↦ inl moves
      | inr (j, waits, moves) ↦ inr (j, waits, inl moves)
    ]
    before_lock i p (network m) at e = elim (Option-cases (w.owner (network m))) [
      | inl unlocked ↦ inl (moves_in i p (network m) at e unlocked)
      | inr (j, locked) ↦ inr (j, (p, network m, at, e, locked), network_owner m j locked)
    ]

-- There is no deadlock. Whatever the threads have done, and however their steps interleaved, every
-- thread can take a step, or stands before a mutex of a thread that can, or before one of a thread
-- that stands before a mutex of a thread that can.
pub reach-CanMove :
    {n : ℕ} {w : Threads} (i : ℕ)
    → Reach n w
    → i < length w.points
    → CanMove w i
      ⊎ ((j : ℕ) × WaitsFor w i j × (CanMove w j ⊎ ((k : ℕ) × WaitsFor w j k × CanMove w k)))
reach-CanMove {w = w} i reach h =
    let (p, at) = get_elem?-some w.points i h in
    elim (Option-cases (wanted p)) [
      | inl e ↦ inl (moves_free w i p at e)
      | inr (k, e) ↦ before_lock w (reach-IsOwned reach) i p k at e
    ]
