-- ===== src/Mesh/Contention/Laws.antt =====
-- What update and transmit of one network do to rfnet, for threads that run at the same time.
use kaonic_comm.Shared.{
  IsExclusive, alone, moved-IsExclusive, set_here_or_elsewhere, get_elem?-replicate, ℕ, ◌≡◌, refl,
  sym, ap, ◌∙◌, subst, false, Option, some, List, [], ◌∷◌, ◌++◌, inl, inr, get_elem?, set, All,
  Bool-cases,
}
use kaonic_comm.Failure.{Error}
use kaonic_comm.Radio.{Frame}
use kaonic_comm.Mesh.Network.{Rfnet, transmit}
use kaonic_comm.Mesh.Network.Laws.{IsFirstFree, transmit-IsFirstFree}
use kaonic_comm.Mesh.Contention.{
  Point, idle, answered, Op, outcome, Contended, Step, moves, Reach, start, later,
}
use kaonic_comm.Mesh.Contention.Moves.{
  in_section, IsBusy, IsFree, Fits, kept_outside, Move-Crosses, Move-Fits, Move-same, Serial, begun,
  Move-Serial,
}

module _ {ℓ} {N : Type ℓ} (rfnet : Rfnet N) where
  -- Each thread in a section holds the mutex, each knows what its point says, and what happened to
  -- rfnet happened one after the other.
  record IsSound (n : N) (ops : List (Op N)) (w : Contended N) : Type ℓ where
    guarded : IsExclusive in_section w.owner w.points
    fits : (i : ℕ) (p : Point N) → get_elem? w.points i ≡ some p → Fits rfnet p w.state
    serial : Serial rfnet n ops w.state

  behind_move :
      (w : Contended N) (i : ℕ) (p p' : Point N) (m : N)
      → get_elem? w.points i ≡ some p
      → IsExclusive in_section w.owner w.points
      → ((j : ℕ) (r : Point N) → get_elem? w.points j ≡ some r → Fits rfnet r w.state)
      → Fits rfnet p' m
      → (in_section p ≡ false → m ≡ w.state)
      → (j : ℕ) (r : Point N) → get_elem? (set w.points i p') j ≡ some r
      → Fits rfnet r m
  behind_move w i p p' m at g fits here same j r e =
      elim (set_here_or_elsewhere w.points i j p' r p at e) [
        | inl (own, f) ↦ subst (λ x. Fits rfnet x m) f here
        | inr (ne, f) ↦ elim (Bool-cases (in_section p)) [
          | inl inside ↦
              kept_outside rfnet r w.state m
                (alone in_section w.owner w.points g i j p r at inside f ne) (fits j r f)
          | inr outside ↦ subst (Fits rfnet r) (sym (same outside)) (fits j r f)
        ]
      ]

  step-IsSound :
      (i : ℕ) {n : N} {w v : Contended N} {ops more : List (Op N)}
      → Step rfnet w i more v
      → IsSound n ops w
      → IsSound n (ops ++ more) v
  step-IsSound i {n} {w} (moves p a more m p' at move admits) s = record {
    guarded =
        moved-IsExclusive in_section w.owner w.points s.guarded i p p' a at
          (Move-Crosses rfnet move) admits;
    fits =
        behind_move w i p p' m at s.guarded s.fits (Move-Fits rfnet move (s.fits i p at))
          (Move-same rfnet move);
    serial = Move-Serial rfnet move (s.fits i p at) s.serial;
  }

  reach-IsSound :
      {n : N} {threads : ℕ} {ops : List (Op N)} {w : Contended N}
      → Reach rfnet n threads ops w
      → IsSound n ops w
  reach-IsSound {n} {threads} start = record {
    guarded = λ i p e h. let out = ap in_section (get_elem?-replicate threads i idle p e) in cc;
    fits = λ i p e. subst (λ x. Fits rfnet x n) (get_elem?-replicate threads i idle p e) tt;
    serial = begun;
  }
  reach-IsSound (later i r s) = step-IsSound i s (reach-IsSound r)

  -- However the threads that call `update` and `transmit` of a network overlap, what happens to
  -- rfnet happens one after the other: it is updated, or it is given a frame of `transmit` in a state
  -- in which it is free, with no update between the test and `rfnet_send`.
  pub reach-Serial :
      {n : N} {threads : ℕ} {ops : List (Op N)} {w : Contended N}
      → Reach rfnet n threads ops w
      → Serial rfnet n ops w.state
  reach-Serial r = let s = reach-IsSound r in s.serial

  -- `transmit` as a function of the states that it finds under the lock.
  abbrev pub transmit_found : List N → N → Frame → Option (Error × N)
  transmit_found [] m f = transmit rfnet m [] f
  transmit_found (n ∷ busy) m f = transmit rfnet n (busy ++ m ∷ []) f

  first_free :
      (n : N) (busy : List N) (m : N)
      → IsBusy rfnet n
      → All (IsBusy rfnet) busy
      → IsFree rfnet m
      → IsFirstFree rfnet n (busy ++ m ∷ []) m
  first_free n [] m h all free = inr (h, (free, refl))
  first_free n (n' ∷ busy) m h all free = inr (h, first_free n' busy m all.0 all.1 free)

  transmit_found_lem :
      (busy : List N) (m : N) (f : Frame)
      → All (IsBusy rfnet) busy
      → IsFree rfnet m
      → let (rc, m') = rfnet.send m f in transmit_found busy m f ≡ some (outcome rfnet rc, m')
  transmit_found_lem [] m f all free = (transmit-IsFirstFree rfnet m [] f).1 m (free, refl)
  transmit_found_lem (n ∷ busy) m f all free =
      (transmit-IsFirstFree rfnet n (busy ++ m ∷ []) f).1 m (first_free n busy m all.0 all.1 free)

  -- However the threads overlap, a call of `transmit` that has returned did what `transmit` does with
  -- the states that it found each time it held the lock: these are those that its tests found busy
  -- and then the one in which it called `rfnet_send`, and the error is what it returned.
  pub reach-transmit :
      {n : N} {threads : ℕ} {ops : List (Op N)} {w : Contended N} (i : ℕ) (f : Frame)
      (busy : List N) (m : N) (err : Error)
      → Reach rfnet n threads ops w
      → get_elem? w.points i ≡ some (answered f busy m err)
      → transmit_found busy m f ≡ some (err, (rfnet.send m f).1)
  reach-transmit i f busy m err r at =
      let s = reach-IsSound r in
      let (all, free, given) = s.fits i (answered f busy m err) at in
      transmit_found_lem busy m f all free
      ∙ ap (λ (x : Error). some (x, (rfnet.send m f).1)) (sym given)
