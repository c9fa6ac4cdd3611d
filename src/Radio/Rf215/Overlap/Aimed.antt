-- ===== src/Radio/Rf215/Overlap/Aimed.antt =====
-- What `_active_trx` is where `configure` follows it, however the calls overlap.
use kaonic_comm.Shared.{refl, ℕ, ◌≡◌, sym, subst, some, List, get_elem?}
use kaonic_comm.Failure.{Error}
use kaonic_comm.Radio.{RadioConfig}
use kaonic_comm.Radio.Rf215.Registers.{TrxType}
use kaonic_comm.Radio.Rf215.Device.{Driver}
use kaonic_comm.Radio.Rf215.Overlap.{
  Call, waiting, tuning, frequency_of, Overlapped, Turn, caller, tune, step, advance, run,
}
use kaonic_comm.Radio.Rf215.Overlap.Steady.{Follows, Asks, run-IsSteady}

module _ {ℓ} {D : Type ℓ} (driver : Driver D) where
  -- Say the calls are not begun, and their frequencies all belong to one transceiver, whatever the
  -- state of the chip. Then behind any schedule of calls, transmissions and receptions, a call that
  -- takes its last step sets its frequency on that transceiver, however the calls overlap.
  pub run_one_band :
      (t : TrxType) (v : Overlapped D) (schedule : List Turn)
      → ((i : ℕ) (call : Call)
          → get_elem? v.calls i ≡ some call
          → (c : RadioConfig) × (call ≡ waiting c)
            × ((d : D) → driver.get_trx_by_freq d c.freq ≡ some t))
      → let v' = run driver v schedule in
        (i : ℕ) (err : Error) (c : RadioConfig)
        → get_elem? v'.calls i ≡ some (tuning err c)
        → (advance driver v' (caller i)).device.dev
          ≡ (driver.set_freq v'.device.dev t (frequency_of c)).1
  unfolding advance step tune
  run_one_band t v schedule h i err c at =
      let begun = λ (j : ℕ) (call : Call) (there : get_elem? v.calls j ≡ some call).
        let (c', e, same) = h j call there in
        subst
          (λ x.
            Asks (λ y. (d : D) → driver.get_trx_by_freq d y.freq ≡ some t) x
            × (Follows x → v.device.active_trx ≡ some t))
          (sym e) (same, λ f. absurd f) in
      let steady =
        run-IsSteady driver (λ y. (d : D) → driver.get_trx_by_freq d y.freq ≡ some t)
          (λ a. a ≡ some t) (λ d y p. p d) v schedule begun in
      rw (at, (steady i (tuning err c) at).1 tt, advance, step) refl
