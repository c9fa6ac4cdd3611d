-- ===== src/Serial/Port.antt =====
-- kaonic/src/comm/serial/serial.cpp: open of the serial port. The system calls and the constants of
-- termios.h are a parameter.
pub mod Laws
pub mod Transfer
mod Tests
use kaonic_comm.Shared.{
  ℕ, zero, suc, Bool, true, false, Option, none, some, List, [], ◌∷◌, ◌==◌, ℤ, pos, negsuc,
  if◌then◌else◌,
}
use kaonic_comm.Failure.{Error, ok, fail, invalid_arg}
use kaonic_comm.Radio.Rf215.Device.{is_success}
use kaonic_comm.Drivers.Spi.{is_minus_one}

-- The rates of `supported_baudrates`.
abbrev pub supported_baudrates : List ℕ
supported_baudrates =
    110 ∷ 150 ∷ 300 ∷ 1200 ∷ 2400 ∷ 4800 ∷ 9600 ∷ 19200 ∷ 38400 ∷ 57600 ∷ 115200 ∷ 230400 ∷ 460800
    ∷ 921600 ∷ 1000000 ∷ 1152000 ∷ 1500000 ∷ 2000000 ∷ 2500000 ∷ 3000000 ∷ 3500000 ∷ 4000000 ∷ []

-- `termios`: the flags that `open` changes, the two speeds, and the rest of the settings.
pub record Termios : Type 0 where
  pub clocal : Bool
  pub cread : Bool
  pub data_bits : ℕ
  pub parenb : Bool
  pub inpck : Bool
  pub cstopb : Bool
  pub crtscts : Bool
  pub ixon : Bool
  pub ixoff : Bool
  pub ixany : Bool
  pub icanon : Bool
  pub isig : Bool
  pub igncr : Bool
  pub icrnl : Bool
  pub opost : Bool
  pub onlcr : Bool
  pub vtime : ℕ
  pub vmin : ℕ
  pub ispeed : ℕ
  pub ospeed : ℕ
  pub others : ℕ

-- The system calls. A path is a number, and `baud_code` gives the constant of a rate.
pub record Tty {ℓ} (W : Type ℓ) : Type ℓ where
  pub exists : W → ℕ → Bool
  pub open_device : W → ℕ → ℤ × W
  pub close : W → ℤ → W
  pub baud_code : ℕ → ℕ
  pub tcgetattr : W → ℤ → ℤ × Termios
  pub cfsetispeed : Termios → ℕ → ℤ × Termios
  pub cfsetospeed : Termios → ℕ → ℤ × Termios
  pub tcflush : W → ℤ → ℤ × W
  pub tcsetattr : W → ℤ → Termios → ℤ × W

-- `std::find_if` in the table.
abbrev pub find_rate : ℕ → List ℕ → Option ℕ
find_rate rate [] = none
find_rate rate (r ∷ rates) = let rest = find_rate rate rates in if rate == r then some r else rest

-- The assignments to `uart_options`.
abbrev pub raw_options : Termios → Termios
raw_options t = record t {
  clocal = true;
  cread = true;
  data_bits = 8;
  parenb = false;
  inpck = false;
  cstopb = false;
  crtscts = false;
  ixon = false;
  ixoff = false;
  ixany = false;
  icanon = false;
  isig = false;
  igncr = false;
  icrnl = false;
  opost = false;
  onlcr = false;
  vtime = 10;
  vmin = 0;
}

module _ {ℓ} {W : Type ℓ} (tty : Tty W) where
  -- A call on the open device that must return 0: where it does not, the device is closed.
  abbrev pub checked : ℤ → ℤ → W → Error × W → Error × W
  checked fd rc w next = if is_success rc then next else (fail, tty.close w fd)

  -- The part of `open` behind the call of `::open`, with the constant of the rate.
  pub set_up : W → ℤ → ℕ → Error × W
  set_up w fd speed =
      let (get_rc, old) = tty.tcgetattr w fd in
      let (in_rc, with_input) = tty.cfsetispeed old speed in
      let (out_rc, with_both) = tty.cfsetospeed with_input speed in
      let (flush_rc, flushed) = tty.tcflush w fd in
      let (set_rc, last) = tty.tcsetattr flushed fd (raw_options with_both) in
      checked fd get_rc w (
        checked fd in_rc w
          (checked fd out_rc w (checked fd flush_rc flushed (checked fd set_rc last (ok, last)))))

  -- `open(config)`: the error, the new value of `_fd`, and the system.
  unfoldable pub open_port : ℤ → W → ℕ → ℕ → Error × ℤ × W
  unfolding set_up
  open_port fd w tty_path baud_rate =
      if tty.exists w tty_path
      then elim (find_rate baud_rate supported_baudrates) [
        | none ↦ (invalid_arg, fd, w)
        | some rate ↦
            let (new_fd, w') = tty.open_device (tty.close w fd) tty_path in
            if is_minus_one new_fd
            then (fail, new_fd, w')
            else (let (err, w'') = set_up w' new_fd (tty.baud_code rate) in (err, new_fd, w''))
      ]
      else (invalid_arg, fd, w)
