-- ===== src/Shared/Mutex.antt =====
-- std::mutex with its guards: what a step of a thread does to it, and the sections behind its lock.
use Prim.Native.Nat.{ℕ}
use mathlib.Core.Bool.{Bool, true, false}
use mathlib.Core.Logic.{◌≢◌, inl, inr}
use mathlib.Core.Path.{◌≡◌, ap, sym, ◌∙◌}
use mathlib.Core.List.{List}
use mathlib.Core.Option.{Option, none, some, some-injective, some-ne-none}
use kaonic_comm.Shared.Tests.{Bool-cases}
use kaonic_comm.Shared.Lists.{get_elem?, set}
use kaonic_comm.Shared.Places.{set_here_or_elsewhere}

pub data Action : Type 0 where
  quiet locks unlocks : Action

-- A locked mutex cannot be locked.
abbrev pub Admits : Option ℕ → Action → Type 0
Admits owner quiet = Unit
Admits owner locks = owner ≡ none
Admits owner unlocks = Unit

-- The owner of the mutex behind a step of the thread `i`.
abbrev pub act : Option ℕ → ℕ → Action → Option ℕ
act owner i quiet = owner
act owner i locks = some i
act owner i unlocks = none

-- Points of threads, some of which are behind a lock and before its unlock.
module _ {ℓ} {P : Type ℓ} (in_section : P → Bool) where
  -- A thread in a section holds the mutex.
  abbrev pub IsExclusive : Option ℕ → List P → Type ℓ
  IsExclusive owner points =
      (i : ℕ) (p : P) → get_elem? points i ≡ some p → in_section p ≡ true → owner ≡ some i

  -- What the two ends of a step have to do with the section, by its action.
  abbrev pub Crosses : Action → P → P → Type 0
  Crosses quiet p p' = in_section p ≡ in_section p'
  Crosses locks p p' = (in_section p ≡ false) × (in_section p' ≡ true)
  Crosses unlocks p p' = (in_section p ≡ true) × (in_section p' ≡ false)

  module _ (owner : Option ℕ) (points : List P) (g : IsExclusive owner points) where
    -- While the thread `i` is in a section, no other is.
    pub alone :
        (i j : ℕ) (p r : P)
        → get_elem? points i ≡ some p
        → in_section p ≡ true
        → get_elem? points j ≡ some r
        → i ≢ j
        → in_section r ≡ false
    alone i j p r at h bt ne = elim (Bool-cases (in_section r)) [
      | inl inside ↦ absurd (ne (some-injective i j (sym (g i p at h) ∙ g j r bt inside)))
      | inr outside ↦ outside
    ]

    -- While the mutex is free, no thread is in a section.
    pub nobody : owner ≡ none → (j : ℕ) (r : P) → get_elem? points j ≡ some r → in_section r ≡ false
    nobody o j r bt = elim (Bool-cases (in_section r)) [
      | inl inside ↦ absurd (some-ne-none j (sym (g j r bt inside) ∙ o))
      | inr outside ↦ outside
    ]

    pub moved-IsExclusive :
        (i : ℕ) (p p' : P) (a : Action)
        → get_elem? points i ≡ some p
        → Crosses a p p'
        → Admits owner a
        → IsExclusive (act owner i a) (set points i p')
    moved-IsExclusive i p p' quiet at c admits j r e h =
        elim (set_here_or_elsewhere points i j p' r p at e) [
          | inl (same, f) ↦ let o = g i p at (c ∙ ap in_section f ∙ h) in cc
          | inr (ne, f) ↦ g j r f h
        ]
    moved-IsExclusive i p p' locks at c admits j r e h =
        elim (set_here_or_elsewhere points i j p' r p at e) [
          | inl (same, f) ↦ ap (λ x. some x) same
          | inr (ne, f) ↦ absurd (some-ne-none j (sym (g j r f h) ∙ admits))
        ]
    moved-IsExclusive i p p' unlocks at (inside, outside) admits j r e h =
        elim (set_here_or_elsewhere points i j p' r p at e) [
          | inl (same, f) ↦ cc
          | inr (ne, f) ↦ let out = alone i j p r at inside f ne in cc
        ]
