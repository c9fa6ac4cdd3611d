-- ===== src/Radio/Rf215/Overlap.antt =====
-- Calls of rf215_radio::configure that run at the same time, and transmissions and receptions between
-- their steps. The class has a mutex, `_mut`, that no function locks: a client's call runs on a
-- thread of the server, and the thread of `update` of the network transmits and receives. A schedule
-- names who takes the next step. A step of `configure` reads the member `_active_trx` again, as each
-- statement of the code does; only `trx_type` is a local variable. The values of the modulation are
-- collected one by one and then written as a set. A transmission or a reception is one step;
-- Attempts has a transmission with turns between its attempts. The driver may have no
-- transceiver for a frequency; the code follows the pointer that it returns without a test.
pub mod Steady
pub mod Aimed
pub mod Attempts
pub mod Band
mod Tests
use kaonic_comm.Shared.{ℕ, suc, Option, none, some, List, [], ◌∷◌, ◌++◌, get_elem?, set, length}
use kaonic_comm.Failure.{Error, ok, from_rc, with_error}
use kaonic_comm.Radio.{RadioFrame, RadioConfig}
use kaonic_comm.Radio.Rf215.Registers.{TrxType, rf_clko, radio, baseband, RegValue}
use kaonic_comm.Radio.Rf215.Device.{
  Driver, Rf215Radio, Frequency, select_filter, common_writes, phy_set, transmit, receive,
}

-- Where a call stands: not begun, behind `select_filter`, behind the store of `_active_trx`, behind so
-- many of the common writes (with `trx_type`), with those values of `mod_values` that are collected,
-- behind the set of registers (with `err`), returned.
pub data Call : Type 0 where
  waiting filtered stored : RadioConfig → Call
  writing : TrxType → ℕ → RadioConfig → Call
  collecting : TrxType → List RegValue → RadioConfig → Call
  tuning : Error → RadioConfig → Call
  answered : Error → Call

-- A register reached through `_active_trx`, which is this transceiver by now.
pub aimed : TrxType → RegValue → RegValue
aimed trx (rf_clko, value) = (rf_clko, value)
aimed trx (radio t reg, value) = (radio trx reg, value)
aimed trx (baseband t reg, value) = (baseband trx reg, value)

-- `rf215_freq freq`
abbrev pub frequency_of : RadioConfig → Frequency
frequency_of c = record {
  channel_spacing = c.channel_spacing;
  frequency = c.freq;
  channel = c.channel;
}

-- The radio, the calls, and what the transmissions and the receptions returned.
pub record Overlapped {ℓ} (D : Type ℓ) : Type ℓ where
  pub device : Rf215Radio D
  pub calls : List Call
  pub sent : List Error
  pub heard : List (Error × RadioFrame)

-- Who is next: a call, or the thread of `update`, which transmits a frame or receives into one for so
-- many milliseconds.
pub data Turn : Type 0 where
  caller : ℕ → Turn
  updater : RadioFrame → Turn
  listener : RadioFrame → ℕ → Turn

module _ {ℓ} {D : Type ℓ} (driver : Driver D) where
  -- The next of the common writes, where `_active_trx` is `active` by now.
  pub write_next : Rf215Radio D → TrxType → TrxType → ℕ → RadioConfig → Rf215Radio D × Call
  unfolding common_writes
  write_next r active trx_type k c = elim (get_elem? (common_writes active c.tx_power) k) [
    | some w ↦ (record r { dev = driver.write_reg r.dev w }, writing trx_type (suc k) c)
    | none ↦ (r, collecting trx_type [] c)
  ]

  -- The next of `mod_values`, which are chosen by `trx_type`; with all of them the set is written.
  pub collect_next :
      Rf215Radio D → Option TrxType → TrxType → List RegValue → RadioConfig → Rf215Radio D × Call
  unfolding phy_set aimed
  collect_next r a trx_type values c =
      elim (get_elem? (phy_set trx_type c.phy_config) (length values)) [
        | none ↦
            let (rc, d) = driver.write_reg_set r.dev values in
            (record r { dev = d }, tuning (with_error ok (from_rc rc)) c)
        | some w ↦ elim a [
          | none ↦ (r, collecting trx_type values c)
          | some active ↦ (r, collecting trx_type (values ++ aimed active w ∷ []) c)
        ]
      ]

  -- The frequency goes to the transceiver that is active by now.
  pub tune : Rf215Radio D → TrxType → Error → RadioConfig → Rf215Radio D × Call
  tune r active err c =
      let (rc, d) = driver.set_freq r.dev active (frequency_of c) in
      (record r { dev = d }, answered (with_error err (from_rc rc)))

  -- The next step of a call. With a null pointer the code has no defined step.
  unfoldable pub step : Rf215Radio D → Call → Rf215Radio D × Call
  unfolding select_filter write_next collect_next tune
  step r (waiting c) = (select_filter r c.freq, filtered c)
  step r (filtered c) = (record r { active_trx = driver.get_trx_by_freq r.dev c.freq }, stored c)
  step r (stored c) = elim r.active_trx [
    | none ↦ (r, stored c)
    | some active ↦ (r, writing active 0 c)
  ]
  step r (writing trx_type k c) = elim r.active_trx [
    | none ↦ (r, writing trx_type k c)
    | some active ↦ write_next r active trx_type k c
  ]
  step r (collecting trx_type values c) = collect_next r r.active_trx trx_type values c
  step r (tuning err c) = elim r.active_trx [
    | none ↦ (r, tuning err c)
    | some active ↦ tune r active err c
  ]
  step r (answered err) = (r, answered err)

  unfoldable pub advance : Overlapped D → Turn → Overlapped D
  unfolding step
  advance v (caller i) = elim (get_elem? v.calls i) [
    | none ↦ v
    | some call ↦
        let (r, call') = step v.device call in record v { device = r; calls = set v.calls i call' }
  ]
  advance v (updater frame) =
      let (err, r) = transmit driver v.device frame in
      record v { device = r; sent = v.sent ++ err ∷ [] }
  advance v (listener frame millis) =
      let (err, frame', r) = receive driver v.device frame millis in
      record v { device = r; heard = v.heard ++ (err, frame') ∷ [] }

  unfoldable pub run : Overlapped D → List Turn → Overlapped D
  unfolding advance
  run v [] = v
  run v (t ∷ schedule) = run (advance v t) schedule
