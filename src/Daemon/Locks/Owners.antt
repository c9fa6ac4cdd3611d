-- ===== src/Daemon/Locks/Owners.antt =====
-- Who holds a mutex: the owner of each is the thread that stands behind its lock.
use mathlib.Core.Option.{some-injective, some-ne-none}
use native.Mathlib.Decide.{ℕ_discrete}
use kaonic_comm.Shared.{
  ℕ, ◌≡◌, ◌≢◌, sym, ◌∙◌, subst, ◌↔◌, chained, flipped, Option, none, some, arith, get_elem?, set,
  get_elem?-set_self, get_elem?-set_other, get_elem?-replicate,
}
use kaonic_comm.Daemon.Locks.{
  Lock, Lock-discrete, Point, idle, Action, quiet, acquires, releases, Move, Threads, owned, Admits,
  act, Step, step, at_rest, Reach, start, later,
}
use kaonic_comm.Daemon.Locks.Moves.{
  Holds, HoldsAt, IsOwned, After, Move-Holds, Releases, Move-Releases,
}

-- The mutex that an action releases is the thread's.
abbrev Owns : (Lock → Option ℕ) → ℕ → Action → Type 0
Owns owner i quiet = Unit
Owns owner i (acquires l) = Unit
Owns owner i (releases l) = owner l ≡ some i

module _ (owner : Lock → Option ℕ) (k l : Lock) (who : Option ℕ) where
  pub owned_here : k ≡ l → owned owner l who k ≡ who
  unfolding owned
  owned_here e = ground arith

  owned_elsewhere : k ≢ l → owned owner l who k ≡ owner k
  unfolding owned
  owned_elsewhere ne = ground arith

module _ (owner : Lock → Option ℕ) (i : ℕ) (k : Lock) where
  act_self :
      (a : Action) → Admits owner a → (act owner i a k ≡ some i) ↔ After a k (owner k ≡ some i)
  unfolding act
  act_self quiet h = ground arith
  act_self (acquires l) h = elim (Lock-discrete k l) [
    | yes e ↦ let v = owned_here owner k l (some i) e in ground arith
    | no ne ↦ let v = owned_elsewhere owner k l (some i) ne in ground arith
  ]
  act_self (releases l) h = elim (Lock-discrete k l) [
    | yes e ↦ let v = owned_here owner k l none e in ground arith
    | no ne ↦ let v = owned_elsewhere owner k l none ne in ground arith
  ]

  act_other :
      (a : Action) (j : ℕ)
      → i ≢ j
      → Admits owner a
      → Owns owner i a
      → (act owner i a k ≡ some j) ↔ (owner k ≡ some j)
  unfolding act
  act_other quiet j ne h r = ground arith
  act_other (acquires l) j ne h r = elim (Lock-discrete k l) [
    | yes e ↦ let v = owned_here owner k l (some i) e in ground arith
    | no off ↦ let v = owned_elsewhere owner k l (some i) off in ground arith
  ]
  act_other (releases l) j ne h r = elim (Lock-discrete k l) [
    | yes e ↦ let v = owned_here owner k l none e in ground arith
    | no off ↦ let v = owned_elsewhere owner k l none off in ground arith
  ]

module _ (w : Threads) (owner : Lock → Option ℕ) (i : ℕ) (p q : Point) (k : Lock)
    (at : get_elem? w.points i ≡ some p) where
  -- The threads with the thread `i` at another point, and other owners.
  abbrev moved : Threads
  moved = record { points = set w.points i q; owner = owner }

  moved_self : HoldsAt moved i k ↔ Holds q k
  moved_self =
      let here = get_elem?-set_self w.points i q p at in
      (λ (r, e, h). subst (λ x. Holds x k) (some-injective r q (sym e ∙ here)) h, λ h. (q, here, h))

  moved_other : (j : ℕ) → i ≢ j → HoldsAt moved j k ↔ HoldsAt w j k
  moved_other j ne =
      let same = get_elem?-set_other w.points i j q ne in
      (λ (r, e, h). (r, sym same ∙ e, h), λ (r, e, h). (r, same ∙ e, h))

HoldsAt-Holds :
    (w : Threads) (i : ℕ) (k : Lock) (p : Point)
    → get_elem? w.points i ≡ some p
    → HoldsAt w i k ↔ Holds p k
HoldsAt-Holds w i k p at =
    (λ (r, e, h). subst (λ x. Holds x k) (some-injective r p (sym e ∙ at)) h, λ h. (p, at, h))

owns :
    (w : Threads) (i : ℕ) (p : Point) (a : Action)
    → IsOwned w
    → get_elem? w.points i ≡ some p
    → Releases a p
    → Owns w.owner i a
owns w i p quiet o at r = tt
owns w i p (acquires l) o at r = tt
owns w i p (releases l) o at r = (o l i).1 (p, at, r)

after_iff : (a : Action) (k : Lock) {A B : Type 0} → (A ↔ B) → After a k A ↔ After a k B
after_iff quiet k h = h
after_iff (acquires l) k h = ground (arith, h)
after_iff (releases l) k h = ground (arith, h)

module _ (w : Threads) (i : ℕ) (p q : Point) (a : Action) (at : get_elem? w.points i ≡ some p)
    (move : Move p a q) (admits : Admits w.owner a) (o : IsOwned w) where
  abbrev stepped : Threads
  stepped = record { points = set w.points i q; owner = act w.owner i a }

  stepped_self : (k : Lock) → (act w.owner i a k ≡ some i) ↔ HoldsAt stepped i k
  stepped_self k = chained (act_self w.owner i k a admits) (
      chained (after_iff a k (chained (o k i) (HoldsAt-Holds w i k p at))) (
        chained (flipped (Move-Holds move k))
          (flipped (moved_self w (act w.owner i a) i p q k at))))

  stepped_other : (k : Lock) (j : ℕ) → i ≢ j → (act w.owner i a k ≡ some j) ↔ HoldsAt stepped j k
  stepped_other k j ne =
      let mine = owns w i p a o at (Move-Releases move) in
      chained (act_other w.owner i k a j ne admits mine)
        (chained (o k j) (flipped (moved_other w (act w.owner i a) i p q k at j ne)))

  stepped-IsOwned : IsOwned stepped
  stepped-IsOwned k j = elim (ℕ_discrete i j) [
    | yes e ↦ subst (λ x. (act w.owner i a k ≡ some x) ↔ HoldsAt stepped x k) e (stepped_self k)
    | no ne ↦ stepped_other k j ne
  ]

step-IsOwned : {w v : Threads} (i : ℕ) → IsOwned w → Step w i v → IsOwned v
step-IsOwned {w = w} i o (step p a q at move admits) = stepped-IsOwned w i p q a at move admits o

rest-IsOwned : (n : ℕ) → IsOwned (at_rest n)
rest-IsOwned n k i = (
  λ e. absurd (some-ne-none _ (sym e)),
  λ (p, e, h). absurd (subst (λ x. Holds x k) (sym (get_elem?-replicate n i idle p e)) h),
)

pub reach-IsOwned : {n : ℕ} {w : Threads} → Reach n w → IsOwned w
reach-IsOwned {n = n} start = rest-IsOwned n
reach-IsOwned (later i reach st) = step-IsOwned i (reach-IsOwned reach) st

-- Whatever the threads do, and however their steps interleave: while a thread stands behind the lock
-- of a mutex, no other thread stands behind the lock of the same one.
pub reach-excludes :
    {n : ℕ} {w : Threads} (i j : ℕ) (k : Lock) → Reach n w → i ≢ j → HoldsAt w i k → ¬ HoldsAt w j k
reach-excludes {w = w} i j k reach ne hi hj =
    let o = reach-IsOwned reach in ne (some-injective i j (sym ((o k i).1 hi) ∙ (o k j).1 hj))
