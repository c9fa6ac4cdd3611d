-- ===== src/Radio/Rf215/Overlap/Tests.antt =====
-- Instances of the theorems on calls that overlap, with a chip that lists the frequencies it is set
-- to, and with which transceiver.
use mathlib.Core.Option
use mathlib.Core.Option.{some-injective, some-ne-none}
use kaonic_comm.Shared.{
  sym, ℕ, zero, suc, ◌≡◌, refl, true, false, none, some, List, [], ◌∷◌, ◌++◌, replicate, pos,
  negsuc, ltb, if◌then◌else◌, get_elem?, length,
}
use kaonic_comm.Failure.{Error, ok, from_rc, with_error}
use kaonic_comm.Radio.{RadioFrame, RadioConfig, default_config}
use kaonic_comm.Radio.Rf215.Registers.{TrxType, rf09, rf24}
use kaonic_comm.Radio.Rf215.Device.{Driver, select_filter, common_writes, phy_set}
use kaonic_comm.Radio.Rf215.Ofdm.{ofdm_set}
use kaonic_comm.Radio.Rf215.Overlap.{
  Call, Turn, caller, waiting, tuning, Overlapped, run, advance, step, write_next, collect_next,
  tune, aimed, stored,
}
use kaonic_comm.Radio.Rf215.Overlap.Attempts.{attempt_on, attempts_among, transmit_among}
use kaonic_comm.Radio.Rf215.Overlap.Band.{transmit_one_band, Tries}
use kaonic_comm.Radio.Rf215.Overlap.Aimed.{run_one_band}

-- So many turns of a call.
abbrev turns : ℕ → ℕ → List Turn
turns n i = replicate n (caller i)

abbrev Log : Type 0
Log = List (TrxType × ℕ)

abbrev listing : Driver Log
listing = record {
  get_trx_by_freq = λ d f. if ltb f 1000000 then some rf09 else some rf24;
  write_reg = λ d w. d;
  write_reg_set = λ d ws. (pos 0, d);
  set_freq = λ d t f. (pos 0, d ++ (t, f.frequency) ∷ []);
  cca_tx_frame = λ d t f. (pos 0, d ++ (t, 0) ∷ []);
  rx = λ d t millis size buffer. (record { rc = negsuc 0; len = 0; buffer = buffer }, d);
}

abbrev near : RadioConfig
near = record default_config { freq = 869535 }

abbrev far : RadioConfig
far = record default_config { freq = 2400000 }

abbrev two_clients : Overlapped Log
two_clients = record {
  device = record {
    dev = [];
    active_trx = none;
    flt_v1 = false;
    flt_v2 = false;
    tx_counter = 0;
    rx_counter = 0;
  };
  calls = waiting near ∷ waiting far ∷ [];
  sent = [];
  heard = [];
}

abbrev small_frame : RadioFrame
small_frame = record { len = 2; payload = 3 ∷ 4 ∷ [] }

-- One after the other, each transceiver gets its frequency.
each_its_own :
    (run listing two_clients (turns 30 0 ++ turns 30 1)).device.dev
    ≡ (rf09, 869535) ∷ (rf24, 2400000) ∷ []
unfolding run advance step select_filter write_next collect_next tune common_writes phy_set aimed
    ofdm_set
each_its_own = refl

-- When they overlap, the first sets its frequency on the other's transceiver.
not_its_own :
    (run listing two_clients (turns 25 0 ++ turns 30 1 ++ turns 1 0)).device.dev
    ≡ (rf24, 2400000) ∷ (rf24, 869535) ∷ []
unfolding run advance step select_filter write_next collect_next tune common_writes phy_set aimed
    ofdm_set
not_its_own = refl

abbrev two_near : Overlapped Log
two_near = record two_clients {
  calls = waiting near ∷ waiting (record near { freq = 915000 }) ∷ [];
}

two_near_waiting :
    (i : ℕ) (call : Call)
    → get_elem? two_near.calls i ≡ some call
    → (c : RadioConfig) × (call ≡ waiting c)
      × ((d : Log) → listing.get_trx_by_freq d c.freq ≡ some rf09)
two_near_waiting zero call h = (near, sym (some-injective _ _ h), λ d. refl)
two_near_waiting (suc zero) call h =
    (record near { freq = 915000 }, sym (some-injective _ _ h), λ d. refl)
two_near_waiting (suc (suc i)) call h = absurd (some-ne-none call (sym h))

-- The calls overlap as above.
near_tuning :
    get_elem? (run listing two_near (turns 25 0 ++ turns 3 1)).calls 0 ≡ some (tuning ok near)
unfolding run advance step select_filter write_next collect_next common_writes phy_set aimed
    ofdm_set with_error from_rc
near_tuning = refl

run_one_band_example :
    let v' = run listing two_near (turns 25 0 ++ turns 3 1) in
    (advance listing v' (caller 0)).device.dev ≡ v'.device.dev ++ (rf09, 869535) ∷ []
run_one_band_example =
    run_one_band listing rf09 two_near (turns 25 0 ++ turns 3 1) two_near_waiting 0 ok near
      near_tuning

-- The channel is busy at the first attempt.
abbrev busy_once : Driver Log
busy_once = record listing {
  cca_tx_frame = λ d t f. (if ltb 0 (length d) then pos 0 else negsuc 0, d ++ (t, 0) ∷ []);
}

abbrev near_active : Overlapped Log
near_active = record two_near { device = record two_near.device { active_trx = some rf09 } }

abbrev between : List (List ℕ)
between = replicate 25 0 ∷ replicate 4 1 ∷ []

transmit_one_band_example :
    (err : Error) × (last : Overlapped Log) × Tries busy_once rf09 4 near_active small_frame between
      err last
    × (transmit_among busy_once near_active small_frame between
        ≡ some (record last { device = record last.device { tx_counter = 1 }; sent = err ∷ [] }))
transmit_one_band_example =
    transmit_one_band busy_once rf09 near_active small_frame between refl two_near_waiting

-- The second attempt is successful.
second_attempt :
    Option.map {B = Error × Log}
      (λ (r : Error × Overlapped Log). (r.0, r.1.device.dev))
      (attempts_among busy_once 4 near_active small_frame between)
    ≡ some (ok, (rf09, 0) ∷ (rf09, 0) ∷ [])
unfolding attempts_among attempt_on run advance step select_filter write_next collect_next tune
    common_writes phy_set aimed ofdm_set
second_attempt = refl

-- A store of the other transceiver between the attempts moves the second of them there.
moved_attempt :
    let v = record two_clients { device = record two_clients.device { active_trx = some rf09 } } in
    (attempts_among busy_once 4 v small_frame ([] ∷ (1 ∷ 1 ∷ []) ∷ []))
    ≡ some (
      ok,
      record {
        device = record {
          dev = (rf09, 0) ∷ (rf24, 0) ∷ [];
          active_trx = some rf24;
          flt_v1 = true;
          flt_v2 = false;
          tx_counter = 0;
          rx_counter = 0;
        };
        calls = waiting near ∷ stored far ∷ [];
        sent = [];
        heard = [];
      },
    )
unfolding attempts_among attempt_on run advance step select_filter
moved_attempt = refl
