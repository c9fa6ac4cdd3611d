-- ===== src/Radio/Rf215/Overlap/Band.antt =====
-- Where the attempts of rf215_radio::transmit go that overlap with calls of configure.
use kaonic_comm.Shared.{
  ℕ, zero, suc, ◌+◌, ◌≡◌, ◌≢◌, refl, sym, ap, ◌∙◌, subst, some, List, [], ◌∷◌, ◌++◌, get_elem?, ◌⊎◌,
  inl, inr, Option-cases, Bool-cases, map, arith, pos, false, ℤ,
}
use kaonic_comm.Failure.{Error, ok, fail}
use kaonic_comm.Radio.{RadioFrame, RadioConfig}
use kaonic_comm.Radio.Rf215.Registers.{TrxType}
use kaonic_comm.Radio.Rf215.Device.{Driver, Rf215Radio, driver_frame, is_success}
use kaonic_comm.Radio.Rf215.Device.Transfer.{is_success_iff}
use kaonic_comm.Radio.Rf215.Overlap.{
  Call, waiting, filtered, stored, writing, collecting, tuning, answered, Overlapped, caller,
  write_next, collect_next, tune, step, advance, run,
}
use kaonic_comm.Radio.Rf215.Overlap.Steady.{Follows, Asks, IsSteady, run-IsSteady, run_keeps}
use kaonic_comm.Radio.Rf215.Overlap.Attempts.{
  first_gap, later_gaps, attempt_on, attempts_among, finish, transmit_among, attempts_among_step,
  transmit_among-test,
}

busy_code : (rc : ℤ) → is_success rc ≡ false → rc ≢ pos 0
busy_code rc h e = cc

module _ {ℓ} {D : Type ℓ} (driver : Driver D) where
  -- What a transmission does that has so many attempts left, all on one transceiver: the error, and
  -- the radio and the calls behind the last attempt.
  abbrev pub Tries :
      TrxType → ℕ → Overlapped D → RadioFrame → List (List ℕ) → Error → Overlapped D → Type ℓ
  Tries t zero v frame gaps err last = (err ≡ fail) × (last ≡ v)
  Tries t (suc n) v frame gaps err last =
      let found = run driver v (first_gap gaps) in
      let (rc, d) = driver.cca_tx_frame found.device.dev t frame in
      let behind = record found { device = record found.device { dev = d } } in
      ((rc ≡ pos 0) × (err ≡ ok) × (last ≡ behind))
      ⊎ ((rc ≢ pos 0) × Tries t n behind frame (later_gaps gaps) err last)

  step-tx_counter :
      (r : Rf215Radio D) (call : Call) → (step driver r call).0.tx_counter ≡ r.tx_counter
  unfolding step write_next collect_next tune
  step-tx_counter r (waiting c) = ground arith
  step-tx_counter r (filtered c) = refl
  step-tx_counter r (stored c) = ground arith
  step-tx_counter r (writing trx k c) = ground arith
  step-tx_counter r (collecting trx values c) = ground arith
  step-tx_counter r (tuning err c) = ground arith
  step-tx_counter r (answered err) = refl

  -- Steps of `configure` neither count a transmission nor return from one.
  abbrev IsSilent : Overlapped D → Overlapped D → Type 0
  IsSilent v w = (w.device.tx_counter ≡ v.device.tx_counter) × (w.sent ≡ v.sent)

  advance-IsSilent : (v : Overlapped D) (i : ℕ) → IsSilent v (advance driver v (caller i))
  unfolding advance
  advance-IsSilent v i = elim (Option-cases (get_elem? v.calls i)) [
    | inl e ↦ rw (e, advance) (refl, refl)
    | inr (call, e) ↦ rw (e, advance) (step-tx_counter v.device call, refl)
  ]

  run-IsSilent : (v : Overlapped D) (gap : List ℕ) → IsSilent v (run driver v (map caller gap))
  unfolding run
  run-IsSilent v [] = (refl, refl)
  run-IsSilent v (i ∷ gap) =
      let (counter, sent) = advance-IsSilent v i in
      let (counter', sent') = run-IsSilent (advance driver v (caller i)) gap in
      (counter' ∙ counter, sent' ∙ sent)

  gap-IsSilent :
      (v : Overlapped D) (gaps : List (List ℕ)) → IsSilent v (run driver v (first_gap gaps))
  unfolding run
  gap-IsSilent v [] = (refl, refl)
  gap-IsSilent v (gap ∷ gaps) = run-IsSilent v gap

  Tries-IsSilent :
      (t : TrxType) (n : ℕ) (v : Overlapped D) (frame : RadioFrame) (gaps : List (List ℕ))
      (err : Error) (last : Overlapped D)
      → Tries t n v frame gaps err last
      → IsSilent v last
  Tries-IsSilent t zero v frame gaps err last (e, same) = rw same (refl, refl)
  Tries-IsSilent t (suc n) v frame gaps err last (inl (rc, e, same)) = rw same (gap-IsSilent v gaps)
  Tries-IsSilent t (suc n) v frame gaps err last (inr (rc, tries)) =
      let (counter, sent) = gap-IsSilent v gaps in
      let (counter', sent') = Tries-IsSilent t n _ frame (later_gaps gaps) err last tries in
      (counter' ∙ counter, sent' ∙ sent)

  module _ (t : TrxType) where
    -- The frequency of the settings belongs to the transceiver, whatever the state of the chip.
    abbrev Belongs : RadioConfig → Type ℓ
    Belongs c = (d : D) → driver.get_trx_by_freq d c.freq ≡ some t

    attempts_one_band :
        (n : ℕ) (v : Overlapped D) (frame : RadioFrame) (gaps : List (List ℕ))
        → IsSteady driver Belongs (λ a. a ≡ some t) (λ d c p. p d) v
        → v.device.active_trx ≡ some t
        → (err : Error) × (last : Overlapped D) × Tries t n v frame gaps err last
          × (attempts_among driver n v frame gaps ≡ some (err, last))
    unfolding attempts_among attempt_on
    attempts_one_band zero v frame gaps h q = (fail, v, (refl, refl), refl)
    attempts_one_band (suc n) v frame gaps h q =
        let stores = λ (d : D) (c : RadioConfig) (p : Belongs c). p d in
        let steady = run-IsSteady driver Belongs (λ a. a ≡ some t) stores v (first_gap gaps) h in
        let kept = run_keeps driver Belongs (λ a. a ≡ some t) stores v (first_gap gaps) h q in
        let found = run driver v (first_gap gaps) in
        let (rc, d) = driver.cca_tx_frame found.device.dev t frame in
        let behind = record found { device = record found.device { dev = d } } in
        let (err, last, tries, same) =
          attempts_one_band n behind frame (later_gaps gaps) steady kept in
        let first = attempts_among_step driver n v frame gaps t kept in
        elim (Bool-cases (is_success rc)) [
          | inl free ↦
              (ok, behind, inl ((is_success_iff rc).0 free, refl, refl), first ∙ rw free refl)
          | inr busy ↦ (err, last, inr (busy_code rc busy, tries), first ∙ rw busy same)
        ]

  -- Say the calls of `configure` are not begun, their frequencies all belong to the transceiver that is
  -- active, whatever the state of the chip, and the calls take any steps between the attempts of a
  -- transmission. Then the transmission has at most four attempts, all on that transceiver: it
  -- returns `ok` behind the first for which the driver returns 0, and makes no more of them, and it
  -- returns `fail` behind the fourth if there is none. It is counted once, and returns once.
  pub transmit_one_band :
      (t : TrxType) (v : Overlapped D) (frame : RadioFrame) (gaps : List (List ℕ))
      → v.device.active_trx ≡ some t
      → ((i : ℕ) (call : Call)
          → get_elem? v.calls i ≡ some call
          → (c : RadioConfig) × (call ≡ waiting c)
            × ((d : D) → driver.get_trx_by_freq d c.freq ≡ some t))
      → (err : Error) × (last : Overlapped D) × Tries t 4 v
          (driver_frame driver frame)
          gaps
          err
          last
        × (transmit_among driver v frame gaps
            ≡ some (record last {
              device = record last.device { tx_counter = v.device.tx_counter + 1 };
              sent = v.sent ++ err ∷ [];
            }))
  transmit_one_band t v frame gaps active h =
      let steady = λ (j : ℕ) (call : Call) (there : get_elem? v.calls j ≡ some call).
        let (c, e, same) = h j call there in
        subst (λ x. Asks (Belongs t) x × (Follows x → v.device.active_trx ≡ some t)) (sym e)
          (same, λ f. absurd f) in
      let (err, last, tries, all) =
        attempts_one_band t 4 v (driver_frame driver frame) gaps steady active in
      let (counter, sent) = Tries-IsSilent t 4 v (driver_frame driver frame) gaps err last tries in
      (
        err,
        last,
        tries,
        transmit_among-test driver v frame gaps (some t) active
            ∙ ap (finish driver) all
            ∙ rw (counter, sent) refl,
      )
