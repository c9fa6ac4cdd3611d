-- ===== src/Mesh/Contention/Moves.antt =====
-- What each step of update and transmit does to rfnet, and what a thread knows at each point.
use kaonic_comm.Shared.{
  Crosses, Action, ◌≡◌, ◌≢◌, refl, Bool, true, false, List, [], ◌∷◌, ◌++◌, append-nil, All,
  All-append, pos,
}
use kaonic_comm.Radio.{Frame}
use kaonic_comm.Mesh.Network.{Rfnet}
use kaonic_comm.Mesh.Contention.{
  Point, idle, entering_update, updating, leaving_update, entering, testing, resting, sending,
  answering, answered, Op, updated, sent, outcome, Move, called_update, locked_update, updates,
  done_update, called, locked, waits, rested, finds, sends, done, used,
}

module _ {ℓ} {N : Type ℓ} where
  -- Behind a lock and before its unlock.
  abbrev pub in_section : Point N → Bool
  in_section idle = false
  in_section entering_update = false
  in_section updating = true
  in_section leaving_update = true
  in_section (entering f busy) = false
  in_section (testing f busy) = true
  in_section (resting f busy) = false
  in_section (sending f busy) = true
  in_section (answering f busy m err) = true
  in_section (answered f busy m err) = false

module _ {ℓ} {N : Type ℓ} (rfnet : Rfnet N) where
  abbrev pub IsBusy : N → Type 0
  IsBusy n = rfnet.is_tx_free n ≢ pos 0

  abbrev pub IsFree : N → Type 0
  IsFree n = rfnet.is_tx_free n ≡ pos 0

  -- What a call of `transmit` has found, at its point.
  abbrev pub Fits : Point N → N → Type 0
  Fits idle n = Unit
  Fits entering_update n = Unit
  Fits updating n = Unit
  Fits leaving_update n = Unit
  Fits (entering f busy) n = All IsBusy busy
  Fits (testing f busy) n = All IsBusy busy
  Fits (resting f busy) n = All IsBusy busy
  Fits (sending f busy) n = All IsBusy busy × IsFree n
  Fits (answering f busy m err) n =
      All IsBusy busy × IsFree m × (err ≡ outcome rfnet (rfnet.send m f).0)
  Fits (answered f busy m err) n =
      All IsBusy busy × IsFree m × (err ≡ outcome rfnet (rfnet.send m f).0)

  pub kept_outside : (p : Point N) (n n' : N) → in_section p ≡ false → Fits p n → Fits p n'
  kept_outside idle n n' h fits = tt
  kept_outside entering_update n n' h fits = tt
  kept_outside updating n n' h fits = tt
  kept_outside leaving_update n n' h fits = tt
  kept_outside (entering f busy) n n' h fits = fits
  kept_outside (testing f busy) n n' h fits = fits
  kept_outside (resting f busy) n n' h fits = fits
  kept_outside (sending f busy) n n' h fits = cc
  kept_outside (answering f busy m err) n n' h fits = fits
  kept_outside (answered f busy m err) n n' h fits = fits

  pub Move-Crosses :
      {n n' : N} {p p' : Point N} {a : Action} {ops : List (Op N)}
      → Move rfnet n p a ops n' p'
      → Crosses in_section a p p'
  Move-Crosses called_update = refl
  Move-Crosses locked_update = (refl, refl)
  Move-Crosses (updates n') = refl
  Move-Crosses done_update = (refl, refl)
  Move-Crosses (called f) = refl
  Move-Crosses (locked f busy) = (refl, refl)
  Move-Crosses (waits f busy h) = (refl, refl)
  Move-Crosses (rested f busy) = refl
  Move-Crosses (finds f busy h) = refl
  Move-Crosses (sends f busy) = refl
  Move-Crosses (done f busy m err) = (refl, refl)
  Move-Crosses (used f busy m err) = refl

  pub Move-Fits :
      {n n' : N} {p p' : Point N} {a : Action} {ops : List (Op N)}
      → Move rfnet n p a ops n' p'
      → Fits p n
      → Fits p' n'
  Move-Fits called_update fits = tt
  Move-Fits locked_update fits = tt
  Move-Fits (updates n') fits = tt
  Move-Fits done_update fits = tt
  Move-Fits (called f) fits = tt
  Move-Fits (locked f busy) fits = fits
  Move-Fits {n} (waits f busy h) fits = All-append IsBusy busy (n ∷ []) fits (h, tt)
  Move-Fits (rested f busy) fits = fits
  Move-Fits (finds f busy h) fits = (fits, h)
  Move-Fits (sends f busy) (all, free) = (all, free, refl)
  Move-Fits (done f busy m err) fits = fits
  Move-Fits (used f busy m err) fits = tt

  -- Outside its sections a thread leaves rfnet alone.
  pub Move-same :
      {n n' : N} {p p' : Point N} {a : Action} {ops : List (Op N)}
      → Move rfnet n p a ops n' p'
      → in_section p ≡ false
      → n' ≡ n
  Move-same called_update h = refl
  Move-same locked_update h = refl
  Move-same (updates n') h = cc
  Move-same done_update h = refl
  Move-same (called f) h = refl
  Move-same (locked f busy) h = refl
  Move-same (waits f busy h') h = refl
  Move-same (rested f busy) h = refl
  Move-same (finds f busy h') h = refl
  Move-same (sends f busy) h = cc
  Move-same (done f busy m err) h = refl
  Move-same (used f busy m err) h = refl

  -- What happened to rfnet, one after the other: it was updated, or given a frame in a state in
  -- which it was free.
  pub data Serial (n : N) : List (Op N) → N → Type ℓ where
    begun : Serial n [] n
    then_updated :
        {ops : List (Op N)} {m : N} (m' : N) → Serial n ops m → Serial n (ops ++ updated m' ∷ []) m'
    then_sent :
        {ops : List (Op N)} {m : N} (f : Frame)
        → Serial n ops m
        → IsFree m
        → Serial n (ops ++ sent f ∷ []) (rfnet.send m f).1

  pub Move-Serial :
      {n0 n n' : N} {p p' : Point N} {a : Action} {before ops : List (Op N)}
      → Move rfnet n p a ops n' p'
      → Fits p n
      → Serial n0 before n
      → Serial n0 (before ++ ops) n'
  Move-Serial {before = before} called_update fits s = rw (append-nil before) s
  Move-Serial {before = before} locked_update fits s = rw (append-nil before) s
  Move-Serial (updates n') fits s = then_updated n' s
  Move-Serial {before = before} done_update fits s = rw (append-nil before) s
  Move-Serial {before = before} (called f) fits s = rw (append-nil before) s
  Move-Serial {before = before} (locked f busy) fits s = rw (append-nil before) s
  Move-Serial {before = before} (waits f busy h) fits s = rw (append-nil before) s
  Move-Serial {before = before} (rested f busy) fits s = rw (append-nil before) s
  Move-Serial {before = before} (finds f busy h) fits s = rw (append-nil before) s
  Move-Serial (sends f busy) (all, free) s = then_sent f s free
  Move-Serial {before = before} (done f busy m err) fits s = rw (append-nil before) s
  Move-Serial {before = before} (used f busy m err) fits s = rw (append-nil before) s
