-- ===== src/Radio/Rf215/Device/Tests.antt =====
-- Instances of the theorems on the radio, with a chip that answers by a list of return codes, and
-- runs of the tables.
use kaonic_comm.Shared.{
  ◌/◌, ◌%◌, ◌≡◌, ◌⊎◌, ◌↔◌, refl, false, some, List, [], ◌∷◌, arith, ℤ, pos, negsuc,
}
use kaonic_comm.Failure.{ok, fail}
use kaonic_comm.Radio.{RadioFrame, default_fsk}
use kaonic_comm.Radio.Rf215.Registers.{rf09}
use kaonic_comm.Radio.Rf215.Fsk.{fsk_values, fskc0, fskc2, fskc3}
use kaonic_comm.Radio.Rf215.Fsk.Fields.{IsTyped, fields_read_back}
use kaonic_comm.Radio.Rf215.Device.{Driver, Rf215Radio, transmit}
use kaonic_comm.Radio.Rf215.Device.Transfer.{Succeeds, transmit_lem}

-- Each attempt takes the next code; an empty list answers 0.
abbrev next_code : List ℤ → ℤ × List ℤ
next_code [] = (pos 0, [])
next_code (z ∷ zs) = (z, zs)

abbrev scripted : Driver (List ℤ)
scripted = record {
  get_trx_by_freq = λ d f. some rf09;
  write_reg = λ d w. d;
  write_reg_set = λ d ws. next_code d;
  set_freq = λ d t f. next_code d;
  cca_tx_frame = λ d t f. next_code d;
  rx = λ d t millis size buffer.
      (record { rc = (next_code d).0; len = 2; buffer = 8 ∷ 9 ∷ [] }, (next_code d).1);
}

abbrev busy_twice : Rf215Radio (List ℤ)
busy_twice = record {
  dev = negsuc 0 ∷ pos 1 ∷ [];
  active_trx = some rf09;
  flt_v1 = false;
  flt_v2 = false;
  tx_counter = 5;
  rx_counter = 0;
}

abbrev small_frame : RadioFrame
small_frame = record { len = 2; payload = 3 ∷ 4 ∷ [] }

default_fsk-IsTyped : IsTyped default_fsk
default_fsk-IsTyped = omega arith

-- At 200 kHz the value for the shift of the intermediate frequency falls on the bandwidth.
fsk_values_rate_three : (fsk_values 3 rf09 false).rxbwc ≡ 13
unfolding fsk_values
fsk_values_rate_three = refl

fields_read_back_example :
    ((fskc0 default_fsk / 64 ≡ 3)
      × (fskc0 default_fsk / 16 % 4 ≡ 1)
      × (fskc0 default_fsk / 2 % 8 ≡ 3)
      × (fskc0 default_fsk % 2 ≡ 0))
    × ((fskc2 default_fsk / 128 ≡ 0)
        × (fskc2 default_fsk / 32 % 4 ≡ 2)
        × (fskc2 default_fsk / 16 % 2 ≡ 0)
        × (fskc2 default_fsk / 8 % 2 ≡ 0)
        × (fskc2 default_fsk / 4 % 2 ≡ 0)
        × (fskc2 default_fsk / 2 % 2 ≡ 0)
        × (fskc2 default_fsk % 2 ≡ 1))
    × ((fskc3 default_fsk / 16 ≡ 8) × (fskc3 default_fsk % 16 ≡ 5))
fields_read_back_example = fields_read_back default_fsk default_fsk-IsTyped

long_preamble-IsTyped : IsTyped (record default_fsk { preamble_length = 520 })
long_preamble-IsTyped = omega arith

short_preamble-IsTyped : IsTyped (record default_fsk { preamble_length = 8 })
short_preamble-IsTyped = omega arith

transmit_lem_example :
    (((transmit scripted busy_twice small_frame).0 ≡ ok)
      ↔ Succeeds scripted rf09 small_frame 4 busy_twice.dev)
    × (((transmit scripted busy_twice small_frame).0 ≡ ok)
        ⊎ ((transmit scripted busy_twice small_frame).0 ≡ fail))
    × ((transmit scripted busy_twice small_frame).1.tx_counter ≡ 6)
transmit_lem_example = transmit_lem scripted busy_twice rf09 small_frame refl
