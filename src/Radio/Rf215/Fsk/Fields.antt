-- ===== src/Radio/Rf215/Fsk/Fields.antt =====
-- The register fields of the FSK settings, as arithmetic: what each field of the settings becomes.
use native.Mathlib.Nat.{mul-one}
use kaonic_comm.Shared.{
  ℕ, ◌+◌, ◌*◌, ◌/◌, ◌>>>◌, u8, ◌%◌, ◌^◌, ◌≤◌, ◌<◌, or_zero, ◌≡◌, Bool, true, false, arith, IsByte,
  ◌|||◌, mask_one, mask_two, mask_three, mask_four, mask_byte, mask_high_cast, or_above_one,
  or_above_two, or_above_three, or_above_four, or_above_five, or_above_six, or_above_seven,
  if◌then◌else◌,
}
use kaonic_comm.Radio.{FskConfig}
use kaonic_comm.Radio.Rf215.Registers.{TrxType}
use kaonic_comm.Radio.Rf215.Fsk.{fsk_set, high_half, fskc0, fskc1, fskc2, fskc3, fskpll}

-- The values that the types of the struct allow: `uint8_t` and `uint16_t`.
pub record IsTyped (c : FskConfig) : Type 0 where
  pub bt : IsByte c.bt
  pub midxs : IsByte c.midxs
  pub midx : IsByte c.midx
  pub mord : IsByte c.mord
  pub preamble_length : c.preamble_length < 2 ^ 16
  pub srate : IsByte c.srate
  pub pdtm : IsByte c.pdtm
  pub rxo : IsByte c.rxo
  pub rxpto : IsByte c.rxpto
  pub mse : IsByte c.mse
  pub fecs : IsByte c.fecs
  pub sfdt : IsByte c.sfdt
  pub pdt : IsByte c.pdt

fskc0_lem :
    (c : FskConfig)
    → IsTyped c
    → fskc0 c ≡ c.bt % 4 * 64 + c.midxs % 4 * 16 + c.midx % 8 * 2 + c.mord % 2
unfolding fskc0
fskc0_lem c t =
    rw
      (
        mask_two c.bt t.bt,
        mask_two c.midxs t.midxs,
        mask_three c.midx t.midx,
        mask_one c.mord t.mord,
      )
      (rw
        (or_above_six (c.bt % 4 * 64) (c.midxs % 4 * 16) (omega arith) (omega arith) (omega arith))
        (rw
          (or_above_four (c.bt % 4 * 64 + c.midxs % 4 * 16) (c.midx % 8 * 2) (omega arith)
            (omega arith) (omega arith))
          (rw
            (or_above_one (c.bt % 4 * 64 + c.midxs % 4 * 16 + c.midx % 8 * 2) (c.mord % 2)
              (omega arith) (omega arith) (omega arith))
            (omega arith))))

abbrev pub bit : Bool → ℕ
bit true = 1
bit false = 0

bit-le-one : (b : Bool) → bit b ≤ 1
bit-le-one true = omega arith
bit-le-one false = omega arith

flag_bits : (b : Bool) (m : ℕ) → (if b then m else 0) ≡ bit b * m
flag_bits true m = omega arith
flag_bits false m = omega arith

-- The cast of the high bits of the preamble's length leaves nothing of them.
fskc1_lem : (c : FskConfig) → IsTyped c → fskc1 c ≡ bit c.freq_inversion * 16 + c.srate % 16
unfolding fskc1
fskc1_lem c t =
    let low = bit-le-one c.freq_inversion in
    rw
      (
        mask_four c.srate t.srate,
        mask_high_cast c.preamble_length t.preamble_length,
        flag_bits c.freq_inversion 16,
      )
      (rw
        (or_above_four (bit c.freq_inversion * 16) (c.srate % 16) (omega arith) (omega arith)
          (omega arith))
        (rw (or_zero (bit c.freq_inversion * 16 + c.srate % 16) (omega arith)) (omega arith)))

or_seven_fields :
    (a b c d e f g : ℕ)
    → a < 2
    → b < 4
    → c < 2
    → d < 2
    → e < 2
    → f < 2
    → g < 2
    → (a * 128 ||| b * 32 ||| c * 16 ||| d * 8 ||| e * 4 ||| f * 2 ||| g)
      ≡ a * 128 + b * 32 + c * 16 + d * 8 + e * 4 + f * 2 + g
or_seven_fields a b c d e f g ha hb hc hd he hf hg =
    let s2 : ℕ = a * 128 + b * 32 in
    let s3 : ℕ = s2 + c * 16 in
    let s4 : ℕ = s3 + d * 8 in
    let s5 : ℕ = s4 + e * 4 in
    let s6 : ℕ = s5 + f * 2 in
    rw (or_above_seven (a * 128) (b * 32) (omega arith) (omega arith) (omega arith)) (
      rw (or_above_five s2 (c * 16) (omega arith) (omega arith) (omega arith)) (
        rw (or_above_four s3 (d * 8) (omega arith) (omega arith) (omega arith)) (
          rw (or_above_three s4 (e * 4) (omega arith) (omega arith) (omega arith)) (
            rw (or_above_two s5 (f * 2) (omega arith) (omega arith) (omega arith))
              (or_above_one s6 g (omega arith) (omega arith) (omega arith))))))

-- The sum of the fields of FSKC2.
abbrev pub fskc2_fields : FskConfig → ℕ
fskc2_fields c =
    c.pdtm % 2 * 128
    + c.rxo % 4 * 32
    + c.rxpto % 2 * 16
    + c.mse % 2 * 8
    + bit c.preamble_inversion * 4
    + c.fecs % 2 * 2
    + bit c.fecie

fskc2_lem : (c : FskConfig) → IsTyped c → fskc2 c ≡ fskc2_fields c
unfolding fskc2
fskc2_lem c t =
    let low = bit-le-one c.preamble_inversion in
    let lowest = bit-le-one c.fecie in
    rw
      (
        mask_one c.pdtm t.pdtm,
        mask_two c.rxo t.rxo,
        mask_one c.rxpto t.rxpto,
        mask_one c.mse t.mse,
        flag_bits c.preamble_inversion 4,
        mask_one c.fecs t.fecs,
        flag_bits c.fecie 1,
        mul-one (bit c.fecie),
      )
      (rw
        (or_seven_fields (c.pdtm % 2) (c.rxo % 4) (c.rxpto % 2) (c.mse % 2)
          (bit c.preamble_inversion) (c.fecs % 2) (bit c.fecie) (omega arith) (omega arith)
          (omega arith) (omega arith) (omega arith) (omega arith) (omega arith))
        (omega arith))

fskc3_lem : (c : FskConfig) → IsTyped c → fskc3 c ≡ c.sfdt % 16 * 16 + c.pdt % 16
unfolding fskc3
fskc3_lem c t =
    rw (mask_four c.sfdt t.sfdt, mask_four c.pdt t.pdt)
      (rw (or_above_four (c.sfdt % 16 * 16) (c.pdt % 16) (omega arith) (omega arith) (omega arith))
        (omega arith))

fskpll_lem : (c : FskConfig) → IsTyped c → fskpll c ≡ c.preamble_length % 256
unfolding fskpll
fskpll_lem c t = rw (mask_byte c.preamble_length t.preamble_length) (omega arith)

-- Each field of the settings is read back from its bits of FSKC0, FSKC2 and FSKC3, cut to the
-- width of the field, for settings within their C types.
pub fields_read_back :
    (c : FskConfig)
    → IsTyped c
    → ((fskc0 c / 64 ≡ c.bt % 4)
        × (fskc0 c / 16 % 4 ≡ c.midxs % 4)
        × (fskc0 c / 2 % 8 ≡ c.midx % 8)
        × (fskc0 c % 2 ≡ c.mord % 2))
      × ((fskc2 c / 128 ≡ c.pdtm % 2)
          × (fskc2 c / 32 % 4 ≡ c.rxo % 4)
          × (fskc2 c / 16 % 2 ≡ c.rxpto % 2)
          × (fskc2 c / 8 % 2 ≡ c.mse % 2)
          × (fskc2 c / 4 % 2 ≡ bit c.preamble_inversion)
          × (fskc2 c / 2 % 2 ≡ c.fecs % 2)
          × (fskc2 c % 2 ≡ bit c.fecie))
      × ((fskc3 c / 16 ≡ c.sfdt % 16) × (fskc3 c % 16 ≡ c.pdt % 16))
fields_read_back c t =
    let low = bit-le-one c.preamble_inversion in
    let lowest = bit-le-one c.fecie in
    (
      rw (fskc0_lem c t) (omega arith),
      rw (fskc2_lem c t) (omega arith),
      rw (fskc3_lem c t) (omega arith),
    )

-- Of the length of the preamble, a number of sixteen bits, only the low eight reach the chip: two
-- lengths that agree modulo 256 give the same values for all registers.
fsk_set_ignores_preamble_high :
    (trx : TrxType) (c : FskConfig) (p q : ℕ)
    → IsTyped (record c { preamble_length = p })
    → IsTyped (record c { preamble_length = q })
    → p % 256 ≡ q % 256
    → fsk_set trx (record c { preamble_length = p })
      ≡ fsk_set trx (record c { preamble_length = q })
unfolding fsk_set
fsk_set_ignores_preamble_high trx c p q s t e = rw (
  mask_high_cast p s.preamble_length,
  mask_high_cast q t.preamble_length,
  mask_byte p s.preamble_length,
  mask_byte q t.preamble_length,
  e,
)

-- A delimiter of eight bits, such as those that a remote client sets, has no upper half.
pub high_half_of_byte : (sfd : ℕ) → high_half (u8 sfd) ≡ 0
unfolding high_half
high_half_of_byte sfd = rw upper
  where
    upper : u8 sfd >>> 8 ≡ 0
    upper = omega arith
