-- ===== src/Radio/Rf215/Device.antt =====
-- The object rf215_radio: its state, and configure, transmit and receive.
pub mod Configure
pub mod Transfer
mod Tests
use kaonic_comm.Shared.{
  ℕ, zero, suc, ◌+◌, min, ℤ, pos, negsuc, Bool, true, false, ◌&&◌, Option, none, some, List, [],
  ◌∷◌, leb, ltb, if◌then◌else◌, ◌|||◌, u8, take, memcpy,
}
use kaonic_comm.Failure.{Error, ok, fail, precondition_failed, timeout, from_rc, with_error}
use kaonic_comm.Radio.{RadioFrame, PhyConfig, ofdm, fsk, RadioConfig, data_max_size}
use kaonic_comm.Radio.Rf215.Registers.{
  TrxType, rf09, rf24, Register, rf_clko, radio, baseband, RegValue,
}
use kaonic_comm.Radio.Rf215.Registers
use kaonic_comm.Radio.Rf215.Ofdm.{ofdm_set}
use kaonic_comm.Radio.Rf215.Fsk.{fsk_set}

-- `rf215_freq`
pub record Frequency : Type 0 where
  pub channel_spacing : ℕ
  pub frequency : ℕ
  pub channel : ℕ

-- What `rf215_baseband_rx` leaves: its return code, the length, and the buffer.
pub record Reception : Type 0 where
  pub rc : ℤ
  pub len : ℕ
  pub buffer : List ℕ

-- The driver, over the state `D` of the chip. `cca_tx_frame` and `rx` stand for the functions
-- `rf215_baseband_cca_tx_frame` and `rf215_baseband_rx`.
pub record Driver {ℓ} (D : Type ℓ) : Type ℓ where
  pub get_trx_by_freq : D → ℕ → Option TrxType
  pub write_reg : D → RegValue → D
  pub write_reg_set : D → List RegValue → ℤ × D
  pub set_freq : D → TrxType → Frequency → ℤ × D
  pub cca_tx_frame : D → TrxType → RadioFrame → ℤ × D
  pub rx : D → TrxType → ℕ → ℕ → List ℕ → Reception × D

-- `flt_v1` and `flt_v2` are the lines that select the filter, true where active.
pub record Rf215Radio {ℓ} (D : Type ℓ) : Type ℓ where
  pub dev : D
  pub active_trx : Option TrxType
  pub flt_v1 : Bool
  pub flt_v2 : Bool
  pub tx_counter : ℕ
  pub rx_counter : ℕ

module _ {ℓ} {D : Type ℓ} where
  unfoldable pub select_filter : Rf215Radio D → ℕ → Rf215Radio D
  select_filter r freq =
      if leb 902000 freq && leb freq 928000
      then record r { flt_v1 = true; flt_v2 = true }
      else if leb 862000 freq && leb freq 876000
      then record r { flt_v1 = false; flt_v2 = true }
      else record r { flt_v1 = true; flt_v2 = false }

-- `std::min(config.tx_power, 12u)`, cast.
abbrev pub limited_power : ℕ → ℕ
limited_power power = u8 (min power 12)

-- The writes at the head of `configure`, in order.
unfoldable pub common_writes : TrxType → ℕ → List RegValue
common_writes trx power =
    (rf_clko, 0x02)
    ∷ (radio trx Registers.RadioRegister.cmd, 0x02)
    ∷ (radio rf24 Registers.RadioRegister.irqm, 0x00)
    ∷ (radio rf09 Registers.RadioRegister.irqm, 0x00)
    ∷ (radio trx Registers.RadioRegister.irqm, 0x1f)
    ∷ (radio trx Registers.RadioRegister.pac, u8 (0b01100000 ||| limited_power power))
    ∷ (radio trx Registers.RadioRegister.padfe, 0b10000000)
    ∷ (radio trx Registers.RadioRegister.auxs, 0b01000010)
    ∷ (baseband rf24 Registers.BasebandRegister.irqm, 0x00)
    ∷ (baseband rf09 Registers.BasebandRegister.irqm, 0x00)
    ∷ (baseband trx Registers.BasebandRegister.irqm, 0x12)
    ∷ []

-- The set of registers of the modulation.
unfoldable pub phy_set : TrxType → PhyConfig → List RegValue
phy_set trx (ofdm c) = ofdm_set trx c
phy_set trx (fsk c) = fsk_set trx c

-- `rc == 0`
abbrev pub is_success : ℤ → Bool
is_success (pos zero) = true
is_success (pos (suc n)) = false
is_success (negsuc n) = false

module _ {ℓ} {D : Type ℓ} (driver : Driver D) where
  unfoldable pub write_each : D → List RegValue → D
  write_each d [] = d
  write_each d (w ∷ ws) = write_each (driver.write_reg d w) ws

  -- The visit of `phy_config`: the return code of the set, and the chip behind it.
  unfoldable pub write_phy : D → TrxType → RadioConfig → ℤ × D
  unfolding write_each common_writes phy_set
  write_phy d trx c =
      driver.write_reg_set (write_each d (common_writes trx c.tx_power)) (phy_set trx c.phy_config)

  -- The rest of `configure`, on the transceiver of the frequency.
  unfoldable pub configure_trx : Rf215Radio D → TrxType → RadioConfig → Error × Rf215Radio D
  unfolding write_phy
  configure_trx r trx c =
      let (rc, d) = write_phy r.dev trx c in
      let (freq_rc, d') =
        driver.set_freq d trx (record {
          channel_spacing = c.channel_spacing;
          frequency = c.freq;
          channel = c.channel;
        }) in
      (
        with_error (with_error ok (from_rc rc)) (from_rc freq_rc),
        record r { dev = d'; active_trx = some trx },
      )

  -- The code follows the pointer without a test: for a frequency with no transceiver it has no
  -- defined result behind the store of the null pointer. This is answered `fail` here.
  unfoldable pub configure : Rf215Radio D → RadioConfig → Error × Rf215Radio D
  unfolding select_filter configure_trx
  configure r c =
      let r' = select_filter r c.freq in
      elim (driver.get_trx_by_freq r'.dev c.freq) [
        | none ↦ (fail, record r' { active_trx = none })
        | some trx ↦ configure_trx r' trx c
      ]

  -- The loop of `transmit`: at most so many attempts, until one returns 0.
  unfoldable pub attempts : ℕ → D → TrxType → RadioFrame → Error × D
  attempts zero d trx frame = (fail, d)
  attempts (suc n) d trx frame =
      let (rc, d') = driver.cca_tx_frame d trx frame in
      let again = attempts n d' trx frame in if is_success rc then (ok, d') else again

  -- `rf_frame` is zero but for the bytes of the frame; its array is as long as the frame's here.
  abbrev pub driver_frame : RadioFrame → RadioFrame
  driver_frame frame = record { len = frame.len; payload = take frame.len frame.payload }

  unfoldable pub transmit : Rf215Radio D → RadioFrame → Error × Rf215Radio D
  unfolding attempts
  transmit r frame = elim r.active_trx [
    | none ↦ (precondition_failed, r)
    | some trx ↦
        let (err, d) = attempts 4 r.dev trx (driver_frame frame) in
        (err, record r { dev = d; tx_counter = r.tx_counter + 1 })
  ]

  -- `receive(frame, timeout)`: the error, the frame and the radio. The buffer is the frame's own
  -- array, so it changes also when nothing is received.
  unfoldable pub receive : Rf215Radio D → RadioFrame → ℕ → Error × RadioFrame × Rf215Radio D
  receive r frame millis = elim r.active_trx [
    | none ↦ (precondition_failed, frame, r)
    | some trx ↦
        let (got, d) = driver.rx r.dev trx millis data_max_size frame.payload in
        if is_success got.rc && ltb 0 got.len
        then (
          ok,
          record { len = got.len; payload = got.buffer },
          record r { dev = d; rx_counter = r.rx_counter + 1 },
        )
        else (timeout, record frame { payload = got.buffer }, record r { dev = d })
  ]
