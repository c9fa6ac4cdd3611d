-- ===== src/Radio/Rf215/Overlap/Attempts.antt =====
-- rf215_radio::transmit whose attempts overlap with calls of configure: each attempt reads
-- `_active_trx` again, and before each calls of configure take steps. The thread that transmits is
-- the only one to transmit or to receive, so no other step comes between.
use kaonic_comm.Shared.{
  ℕ, zero, suc, ◌+◌, ◌≡◌, refl, ap, ◌∙◌, Bool, Option, none, some, List, [], ◌∷◌, ◌++◌, map,
  if◌then◌else◌, inl, inr, Option-cases, Bool-cases,
}
use kaonic_comm.Failure.{Error, ok, fail, precondition_failed}
use kaonic_comm.Radio.{RadioFrame}
use kaonic_comm.Radio.Rf215.Registers.{TrxType}
use kaonic_comm.Radio.Rf215.Device.{Driver, attempts, driver_frame, is_success, transmit}
use kaonic_comm.Radio.Rf215.Overlap.{Overlapped, Turn, caller, updater, advance, run}

-- The calls that take a step before an attempt, and those before the attempts behind it.
abbrev pub first_gap : List (List ℕ) → List Turn
first_gap [] = []
first_gap (gap ∷ gaps) = map caller gap

abbrev pub later_gaps : List (List ℕ) → List (List ℕ)
later_gaps [] = []
later_gaps (gap ∷ gaps) = gaps

module _ {ℓ} {D : Type ℓ} (driver : Driver D) where
  -- An attempt on a transceiver, and the overlapped radio behind it.
  unfoldable pub attempt_on : Overlapped D → TrxType → RadioFrame → Bool × Overlapped D
  attempt_on v trx frame =
      let (rc, d) = driver.cca_tx_frame v.device.dev trx frame in
      (is_success rc, record v { device = record v.device { dev = d } })

  -- The loop of `transmit`, with at most so many attempts. With a null pointer the code has no
  -- defined step: `none`.
  unfoldable pub attempts_among :
      ℕ → Overlapped D → RadioFrame → List (List ℕ) → Option (Error × Overlapped D)
  unfolding attempt_on
  attempts_among zero v frame gaps = some (fail, v)
  attempts_among (suc n) v frame gaps =
      let v' = run driver v (first_gap gaps) in
      elim v'.device.active_trx [
        | none ↦ none
        | some active ↦
            let (sent, v'') = attempt_on v' active frame in
            let again = attempts_among n v'' frame (later_gaps gaps) in
            if sent then some (ok, v'') else again
      ]

  -- The end of `transmit`: the counter, and what it returns.
  abbrev pub counted : Error → Overlapped D → Overlapped D
  counted err v = record v {
    device = record v.device { tx_counter = v.device.tx_counter + 1 };
    sent = v.sent ++ err ∷ [];
  }

  abbrev pub finish : Option (Error × Overlapped D) → Option (Overlapped D)
  finish none = none
  finish (some (err, v)) = some (counted err v)

  unfoldable pub transmit_among : Overlapped D → RadioFrame → List (List ℕ) → Option (Overlapped D)
  unfolding attempts_among
  transmit_among v frame gaps = elim v.device.active_trx [
    | none ↦ some (record v { sent = v.sent ++ precondition_failed ∷ [] })
    | some trx ↦ finish (attempts_among 4 v (driver_frame driver frame) gaps)
  ]

  -- An attempt where the pointer is this transceiver.
  pub attempts_among_step :
      (n : ℕ) (v : Overlapped D) (frame : RadioFrame) (gaps : List (List ℕ)) (active : TrxType)
      → (run driver v (first_gap gaps)).device.active_trx ≡ some active
      → let (sent, v'') = attempt_on (run driver v (first_gap gaps)) active frame in
        attempts_among (suc n) v frame gaps
        ≡ (if sent then some (ok, v'') else attempts_among n v'' frame (later_gaps gaps))
  unfolding attempts_among
  attempts_among_step n v frame gaps active h =
      ap
        (λ (a : Option TrxType). elim a [
          | none ↦ none
          | some x ↦
              let (sent, v'') = attempt_on (run driver v (first_gap gaps)) x frame in
              let again = attempts_among n v'' frame (later_gaps gaps) in
              if sent then some (ok, v'') else again
        ])
        h

  -- With no turns between the attempts, the loop is that of the transmission as one step.
  attempts_among-attempts :
      (n : ℕ) (v : Overlapped D) (trx : TrxType) (frame : RadioFrame)
      → v.device.active_trx ≡ some trx
      → let (err, d) = attempts driver n v.device.dev trx frame in
        attempts_among n v frame [] ≡ some (err, record v { device = record v.device { dev = d } })
  unfolding attempts_among attempts run
  attempts_among-attempts zero v trx frame h = refl
  attempts_among-attempts (suc n) v trx frame h =
      let (rc, d) = driver.cca_tx_frame v.device.dev trx frame in
      let ih =
        attempts_among-attempts n (record v { device = record v.device { dev = d } }) trx frame h in
      attempts_among_step n v frame [] trx h
      ∙ elim (Bool-cases (is_success rc)) [ inl sent ↦ rw sent refl | inr busy ↦ rw busy ih ]

  -- A transmission whose attempts no other thread comes between is the transmission as one step.
  pub transmit_among_nothing :
      (v : Overlapped D) (frame : RadioFrame)
      → transmit_among v frame [] ≡ some (advance driver v (updater frame))
  unfolding transmit_among advance transmit
  transmit_among_nothing v frame = elim (Option-cases v.device.active_trx) [
    | inl e ↦ rw (e, transmit_among, advance, transmit) refl
    | inr (trx, e) ↦
        rw (e, transmit_among, advance, transmit)
          (rw (attempts_among-attempts 4 v trx (driver_frame driver frame) e) refl)
  ]

  -- The test of the pointer at the begin of `transmit`.
  pub transmit_among-test :
      (v : Overlapped D) (frame : RadioFrame) (gaps : List (List ℕ)) (a : Option TrxType)
      → v.device.active_trx ≡ a
      → transmit_among v frame gaps ≡ elim a [
        | none ↦ some (record v { sent = v.sent ++ precondition_failed ∷ [] })
        | some trx ↦ finish (attempts_among 4 v (driver_frame driver frame) gaps)
      ]
  unfolding transmit_among
  transmit_among-test v frame gaps a h =
      ap
        (λ (x : Option TrxType). elim x [
          | none ↦ some (record v { sent = v.sent ++ precondition_failed ∷ [] })
          | some trx ↦ finish (attempts_among 4 v (driver_frame driver frame) gaps)
        ])
        h
