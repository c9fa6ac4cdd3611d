-- ===== src/Services/Grpc/Waiting/Atomic.antt =====
-- What receive_frame and pop_frame do to the queue, for calls that run at the same time: each call
-- acts on it at once, at one step between its begin and its end.
use mathlib.Core.Option.{some-ne-none}
use kaonic_comm.Shared.{
  alone, nobody, Action, quiet, locks, unlocks, act, set_here_or_elsewhere, get_elem?-replicate, ℕ,
  ◌≡◌, ◌≢◌, refl, sym, ◌∙◌, subst, true, false, none, some, List, [], ◌∷◌, ◌++◌, ◌⊎◌, inl, inr,
  get_elem?, set, Bool-cases,
}
use kaonic_comm.Radio.{Frame}
use kaonic_comm.Services.Grpc.{without_front}
use kaonic_comm.Services.Grpc.Waiting.{
  Point, idle, notifying, unlocking, woken, taking, popping, Op, Guarded, wake, Step, moves,
  notifies, notifies_nobody, Reach, start, later,
}
use kaonic_comm.Services.Grpc.Waiting.Sections.{
  in_section, IsGuarded, Move-Crosses, wake_cases, reach-IsGuarded,
}
use kaonic_comm.Services.Grpc.Waiting.Views.{
  Runs, nothing, View, free_of_section, no_op_more, Leaves, Move-Leaves,
}

-- The queue of the calls at once is the one that each thread in a section takes it for, and while the
-- mutex is free it is the queue.
pub record IsAtomic (w : Guarded) (a : List Frame) : Type 0 where
  pub views : (i : ℕ) (p : Point) → get_elem? w.points i ≡ some p → View p w.queue a
  pub free : w.owner ≡ none → w.queue ≡ a

module _ (w : Guarded) (i : ℕ) (p p' : Point) (q' a' : List Frame)
    (at : get_elem? w.points i ≡ some p) where
  -- Behind a step at which no other thread is in a section.
  sole_section :
      View p' q' a'
      → ((j : ℕ) (r : Point) → i ≢ j → get_elem? w.points j ≡ some r → in_section r ≡ false)
      → (j : ℕ) (r : Point) → get_elem? (set w.points i p') j ≡ some r
      → View r q' a'
  sole_section v others j r e = elim (set_here_or_elsewhere w.points i j p' r p at e) [
    | inl (same, f) ↦ subst (λ x. View x q' a') f v
    | inr (ne, f) ↦ free_of_section r q' a' (others j r ne f)
  ]

module _ (w : Guarded) (i : ℕ) (p p' : Point) (q' a a' : List Frame)
    (at : get_elem? w.points i ≡ some p) (g : IsGuarded w) (s : IsAtomic w a) where
  abbrev behind : Action → Guarded
  behind act' = record { queue = q'; owner = act w.owner i act'; points = set w.points i p' }

  none_other :
      in_section p ≡ true
      → (j : ℕ) (r : Point) → i ≢ j
      → get_elem? w.points j ≡ some r
      → in_section r ≡ false
  none_other inside j r ne f = alone in_section w.owner w.points g i j p r at inside f ne

  quiet-IsAtomic : Leaves quiet p p' w.queue q' a a' → IsAtomic (behind quiet) a'
  quiet-IsAtomic (v, keeps) = elim (Bool-cases (in_section p)) [
    | inl inside ↦ record {
      views = sole_section w i p p' q' a' at v (none_other inside);
      free = λ o. absurd (some-ne-none i (sym (g i p at inside) ∙ o));
    }
    | inr outside ↦
        let (q_same, a_same) = keeps outside in
        record {
          views = λ j r e. elim (set_here_or_elsewhere w.points i j p' r p at e) [
            | inl (same, f) ↦ subst (λ x. View x q' a') f v
            | inr (ne, f) ↦ rw (q_same, a_same) (s.views j r f)
          ];
          free = λ o. q_same ∙ s.free o ∙ sym a_same;
        }
  ]

  locks-IsAtomic : w.owner ≡ none → View p' q' a' → IsAtomic (behind locks) a'
  locks-IsAtomic o v = record {
    views =
        sole_section w i p p' q' a' at v (λ j r ne f. nobody in_section w.owner w.points g o j r f);
    free = λ o'. absurd (some-ne-none i o');
  }

  unlocks-IsAtomic : in_section p ≡ true → View p' q' a' → q' ≡ a' → IsAtomic (behind unlocks) a'
  unlocks-IsAtomic inside v e = record {
    views = sole_section w i p p' q' a' at v (none_other inside);
    free = λ o. e;
  }

notified-IsAtomic :
    (w : Guarded) (i : ℕ) (a : List Frame) (points : List Point)
    → IsAtomic w a
    → get_elem? w.points i ≡ some notifying
    → ((j : ℕ) (r : Point)
        → get_elem? points j ≡ some r
        → (woken false ≡ r)
          ⊎ ((i ≡ j) × (unlocking ≡ r))
          ⊎ ((i ≢ j) × (get_elem? w.points j ≡ some r)))
    → IsAtomic (record w { points = points }) a
notified-IsAtomic w i a points s at from = record {
  views = λ j r e. elim (from j r e) [
    | inl f ↦ subst (λ x. View x w.queue a) f tt
    | inr (inl (same, f)) ↦ subst (λ x. View x w.queue a) f (s.views i notifying at)
    | inr (inr (ne, f)) ↦ s.views j r f
  ];
  free = s.free;
}

abbrev Behind : List Op → Guarded → Type 0
Behind ops w = (a : List Frame) × Runs ops a × IsAtomic w a

step-Behind :
    (i : ℕ) {w v : Guarded} {ops more : List Op}
    → IsGuarded w
    → Step w i more v
    → Behind ops w
    → Behind (ops ++ more) v
unfolding wake
step-Behind i {w} g (moves p quiet more q p' at m admits) (a, r, s) =
    let (a', extends, leaves) = Move-Leaves a m (s.views i p at) in
    (a', extends _ r, quiet-IsAtomic w i p p' q a a' at g s leaves)
step-Behind i {w} g (moves p locks more q p' at m admits) (a, r, s) =
    let (a', extends, leaves) = Move-Leaves a m (s.free admits) in
    (a', extends _ r, locks-IsAtomic w i p p' q a a' at g s admits leaves)
step-Behind i {w} g (moves p unlocks more q p' at m admits) (a, r, s) =
    let (a', extends, leaves) = Move-Leaves a m (s.views i p at) in
    let (inside, outside) = Move-Crosses m in
    (a', extends _ r, unlocks-IsAtomic w i p p' q a a' at g s inside leaves.0 leaves.1)
step-Behind i {w} g (notifies k at bt) (a, r, s) = (
  a,
  no_op_more a _ r,
  notified-IsAtomic w i a _ s at (λ j x e. wake_cases w.points i k j x at bt e),
)
step-Behind i {w} g (notifies_nobody at off) (a, r, s) = (
  a,
  no_op_more a _ r,
  notified-IsAtomic w i a _ s at
      (λ j x e. inr (set_here_or_elsewhere w.points i j unlocking x notifying at e)),
)

pub reach-Behind : {n : ℕ} {ops : List Op} {w : Guarded} → Reach n ops w → Behind ops w
reach-Behind {n} start = (
  [],
  nothing,
  record {
    views = λ i p e. subst (λ x. View x [] []) (get_elem?-replicate n i idle p e) tt;
    free = λ o. refl;
  },
)
reach-Behind (later i r s) = step-Behind i (reach-IsGuarded r) s (reach-Behind r)

-- However the threads that call the two functions overlap, while no thread holds the mutex the queue
-- is the one that these calls leave when each pushes, pops or gives up at once, in the order of those
-- steps, with each result of `pop_frame` the one that it has there.
pub reach-Runs :
    {n : ℕ} {ops : List Op} {w : Guarded} → Reach n ops w → w.owner ≡ none → Runs ops w.queue
reach-Runs {n} {ops} r o =
    let (a, runs, s) = reach-Behind r in subst (Runs ops) (sym (s.free o)) runs

-- A thread behind a wait that returned true finds a frame, and `front` is never called on an empty
-- queue.
pub reach-taking :
    {n : ℕ} {ops : List Op} {w : Guarded} (i : ℕ)
    → Reach n ops w
    → get_elem? w.points i ≡ some taking
    → w.queue ≢ []
reach-taking i r e = let (a, runs, s) = reach-Behind r in (s.views i taking e).1

-- Behind the copy of the front that frame is still there, so `pop` removes the frame that was copied.
pub reach-popping :
    {n : ℕ} {ops : List Op} {w : Guarded} (i : ℕ) (f : Frame)
    → Reach n ops w
    → get_elem? w.points i ≡ some (popping f)
    → w.queue ≡ f ∷ without_front w.queue
reach-popping i f r e = let (a, runs, s) = reach-Behind r in (s.views i (popping f) e).1
