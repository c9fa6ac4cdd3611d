-- ===== src/Radio/Rf215/Device/Configure.antt =====
-- What rf215_radio::configure leaves behind and what it returns.
use mathlib.Core.Logic.{ite}
use kaonic_comm.Shared.{
  ap, ℤ, ℕ, ◌+◌, min, ◌≡◌, refl, ◌↔◌, ◌⊎◌, false, Option, none, some, List, [], ◌∷◌, arith,
  is_negative, ◌|||◌, u8, or_above_four,
}
use kaonic_comm.Failure.{ok, fail, from_rc, with_error}
use kaonic_comm.Radio.{RadioConfig}
use kaonic_comm.Radio.Rf215.Registers.{
  TrxType, rf09, rf24, RadioRegister, BasebandRegister, Register, radio, baseband, RegValue,
}
use kaonic_comm.Radio.Rf215.Device.{
  Driver, Rf215Radio, select_filter, limited_power, common_writes, write_phy, configure_trx,
  configure,
}

unfoldable pub Register-discrete : Discrete Register
Register-discrete = hlevel

-- The value that a register holds after the writes, if any of them is to it.
unfoldable pub last_value : Register → List RegValue → Option ℕ → Option ℕ
unfolding Register-discrete
last_value reg [] held = held
last_value reg ((r, v) ∷ ws) held = last_value reg ws (ite (Register-discrete r reg) (some v) held)

abbrev pub other : TrxType → TrxType
other rf09 = rf24
other rf24 = rf09

power_field : (power : ℕ) → u8 (0b01100000 ||| limited_power power) ≡ 96 + min power 12
power_field power =
    rw (or_above_four 0b01100000 (limited_power power) refl (omega arith) (omega arith))
      (omega arith)

-- After the common writes the chosen transceiver has its interrupts on and the other has them all
-- masked, in the radio and in the baseband, and the power amplifier is set to the power asked for,
-- but to 12 at most.
common_writes_last :
    (trx : TrxType) (power : ℕ)
    → let after = λ (reg : Register). last_value reg (common_writes trx power) none in
      (after (radio trx RadioRegister.irqm) ≡ some 0x1f)
      × (after (radio (other trx) RadioRegister.irqm) ≡ some 0)
      × (after (baseband trx BasebandRegister.irqm) ≡ some 0x12)
      × (after (baseband (other trx) BasebandRegister.irqm) ≡ some 0)
      × (after (radio trx RadioRegister.pac) ≡ some (96 + min power 12))
unfolding last_value Register-discrete common_writes
common_writes_last rf09 power = (refl, refl, refl, refl, ap some (power_field power))
common_writes_last rf24 power = (refl, refl, refl, refl, ap some (power_field power))

codes_lem :
    (a b : ℤ)
    → let err = with_error (with_error ok (from_rc a)) (from_rc b) in
      ((err ≡ ok) ↔ ((is_negative a ≡ false) × (is_negative b ≡ false)))
      × ((err ≡ ok) ⊎ (err ≡ fail))
unfolding with_error from_rc
codes_lem a b = ground arith

module _ {ℓ} {D : Type ℓ} (driver : Driver D) (r : Rf215Radio D) (c : RadioConfig) where
  -- Where the frequency has a transceiver, `configure` returns `ok` exactly if neither the set of
  -- registers nor the frequency was refused by the driver, and `fail` otherwise. On every path that
  -- transceiver is active, so a radio that could not be configured also transmits.
  pub configure_lem :
      (trx : TrxType)
      → driver.get_trx_by_freq (select_filter r c.freq).dev c.freq ≡ some trx
      → let (rc, d) = write_phy driver (select_filter r c.freq).dev trx c in
        let (freq_rc, d') = driver.set_freq d trx (record {
          channel_spacing = c.channel_spacing;
          frequency = c.freq;
          channel = c.channel;
        }) in
        let (err, r') = configure driver r c in
        ((err ≡ ok) ↔ ((is_negative rc ≡ false) × (is_negative freq_rc ≡ false)))
        × ((err ≡ ok) ⊎ (err ≡ fail))
        × (r'.active_trx ≡ some trx)
  unfolding configure configure_trx with_error from_rc
  configure_lem trx e = let (a, b) = codes_lem _ _ in rw (e, configure) (a, b, refl)
