-- ===== src/Services/Grpc/Waiting/Sections.antt =====
-- The sections of receive_frame and pop_frame that `_mut` guards: a thread in one holds the mutex.
use mathlib.Core.Option.{some-injective}
use kaonic_comm.Shared.{
  IsExclusive, Crosses, moved-IsExclusive, Action, quiet, set_here_or_elsewhere,
  get_elem?-replicate, ℕ, ◌≡◌, ◌≢◌, refl, ap, ◌∙◌, Bool, true, false, some, List, ◌⊎◌, inl, inr,
  get_elem?, set, get_elem?-set_other,
}
use kaonic_comm.Radio.{Frame}
use kaonic_comm.Services.Grpc.Waiting.{
  Point, idle, calling_push, pushing, adding, notifying, unlocking, calling_pop, testing, sleeping,
  woken, taking, popping, leaving, returned, Op, PushMove, PopMove, Move, in_push, in_pop, Guarded,
  wake, Step, moves, notifies, notifies_nobody, Reach, start, later,
}

-- Behind a lock and before its unlock.
abbrev pub in_section : Point → Bool
in_section idle = false
in_section (calling_push f) = false
in_section (pushing f) = true
in_section (adding f) = true
in_section notifying = true
in_section unlocking = true
in_section calling_pop = false
in_section (testing late) = true
in_section sleeping = false
in_section (woken late) = false
in_section taking = true
in_section (popping f) = true
in_section (leaving r) = true
in_section (returned r) = false

abbrev pub IsGuarded : Guarded → Type 0
IsGuarded w = IsExclusive in_section w.owner w.points

pub Move-Crosses :
    {i : ℕ} {q q' : List Frame} {p p' : Point} {a : Action} {ops : List Op}
    → Move i q p a ops q' p'
    → Crosses in_section a p p'
Move-Crosses (in_push (PushMove.called f)) = refl
Move-Crosses (in_push (PushMove.locked f)) = (refl, refl)
Move-Crosses (in_push (PushMove.trimmed f)) = refl
Move-Crosses (in_push (PushMove.added f)) = refl
Move-Crosses (in_push PushMove.done) = (refl, refl)
Move-Crosses (in_pop PopMove.called) = refl
Move-Crosses (in_pop PopMove.locked) = (refl, refl)
Move-Crosses (in_pop (PopMove.found late h)) = refl
Move-Crosses (in_pop (PopMove.waits h)) = (refl, refl)
Move-Crosses (in_pop (PopMove.late h)) = refl
Move-Crosses (in_pop (PopMove.wakes late)) = refl
Move-Crosses (in_pop (PopMove.relocked late)) = (refl, refl)
Move-Crosses (in_pop (PopMove.front f rest h)) = refl
Move-Crosses (in_pop (PopMove.took f)) = refl
Move-Crosses (in_pop (PopMove.done r)) = (refl, refl)
Move-Crosses (in_pop (PopMove.used r)) = refl

notifying-ne-sleeping : notifying ≢ sleeping
notifying-ne-sleeping e = cc

pub unlocking-ne-sleeping : unlocking ≢ sleeping
unlocking-ne-sleeping e = cc

-- The thread that is woken is not the caller of `notify_one`.
pub woken_at :
    (points : List Point) (i k : ℕ)
    → get_elem? points i ≡ some notifying
    → get_elem? points k ≡ some sleeping
    → get_elem? (set points i unlocking) k ≡ some sleeping
woken_at points i k at bt =
    let ne : i ≢ k = λ same. notifying-ne-sleeping (some-injective notifying sleeping cc) in
    get_elem?-set_other points i k unlocking ne ∙ bt

-- A point behind `notify_one`, which the thread `i` calls and which wakes the thread `k`.
pub wake_cases :
    (points : List Point) (i k j : ℕ) (r : Point)
    → get_elem? points i ≡ some notifying
    → get_elem? points k ≡ some sleeping
    → get_elem? (set (set points i unlocking) k (woken false)) j ≡ some r
    → (woken false ≡ r) ⊎ ((i ≡ j) × (unlocking ≡ r)) ⊎ ((i ≢ j) × (get_elem? points j ≡ some r))
wake_cases points i k j r at bt e =
    let ct = woken_at points i k at bt in
    elim (set_here_or_elsewhere (set points i unlocking) k j (woken false) r sleeping ct e) [
      | inl (same, f) ↦ inl f
      | inr (off, f) ↦ inr (set_here_or_elsewhere points i j unlocking r notifying at f)
    ]

pub step-IsGuarded :
    (i : ℕ) {w v : Guarded} {ops : List Op} → Step w i ops v → IsGuarded w → IsGuarded v
unfolding wake
step-IsGuarded i {w} (moves p a ops q p' at m admits) g =
    moved-IsExclusive in_section w.owner w.points g i p p' a at (Move-Crosses m) admits
step-IsGuarded i {w} (notifies k at bt) g = λ j r e h. elim (wake_cases w.points i k j r at bt e) [
  | inl f ↦ cc
  | inr (inl (same, f)) ↦ let o = g i notifying at refl in cc
  | inr (inr (ne, f)) ↦ g j r f h
]
step-IsGuarded i {w} (notifies_nobody at off) g =
    moved-IsExclusive in_section w.owner w.points g i notifying unlocking quiet at refl tt

pub reach-IsGuarded : {n : ℕ} {ops : List Op} {w : Guarded} → Reach n ops w → IsGuarded w
reach-IsGuarded {n} start =
    λ i p e h. let out = ap in_section (get_elem?-replicate n i idle p e) in cc
reach-IsGuarded (later i r s) = step-IsGuarded i s (reach-IsGuarded r)
