-- ===== src/Serial/Port/Tests.antt =====
-- An instance of the theorem on open, and runs, over a system whose state is the list of the
-- descriptors held, and whose only path is 1. Its `tcflush` fails.
use kaonic_comm.Shared.{
  ◌≡◌, ◌⊎◌, ◌↔◌, refl, ap, true, false, none, List, [], ◌∷◌, ◌==◌, arith, drop, ℤ, pos, negsuc,
}
use kaonic_comm.Failure.{ok, fail, invalid_arg}
use kaonic_comm.Serial.Port.{Termios, Tty, find_rate, supported_baudrates, set_up, open_port}
use kaonic_comm.Serial.Port.Laws.{KeepsDescriptors, open_port_held}

abbrev cooked : Termios
cooked = record {
  clocal = false;
  cread = false;
  data_bits = 7;
  parenb = true;
  inpck = true;
  cstopb = true;
  crtscts = true;
  ixon = true;
  ixoff = true;
  ixany = true;
  icanon = true;
  isig = true;
  igncr = true;
  icrnl = true;
  opost = true;
  onlcr = true;
  vtime = 0;
  vmin = 1;
  ispeed = 0;
  ospeed = 0;
  others = 0;
}

abbrev unflushed : Tty (List ℤ)
unflushed = record {
  exists = λ w path. path == 1;
  open_device = λ w path. (pos 7, pos 7 ∷ w);
  close = λ w fd. drop 1 w;
  baud_code = λ rate. rate;
  tcgetattr = λ w fd. (pos 0, cooked);
  cfsetispeed = λ t speed. (pos 0, record t { ispeed = speed });
  cfsetospeed = λ t speed. (pos 0, record t { ospeed = speed });
  tcflush = λ w fd. (negsuc 0, w);
  tcsetattr = λ w fd t. (pos 0, w);
}

unflushed-KeepsDescriptors : KeepsDescriptors unflushed (λ w. w)
unflushed-KeepsDescriptors = record {
  opened = λ w path e. refl;
  not_opened = λ w path e. ground arith;
  flushed = λ w fd. refl;
  set = λ w fd t. refl;
  closed = λ w fd rest e. ap (λ l. drop 1 l) e;
}

open_port_held_example :
    let (err, fd, w') = open_port unflushed (pos 3) (pos 3 ∷ pos 2 ∷ []) 1 9600 in
    ((err ≡ invalid_arg) ↔ ((true ≡ false) ⊎ (find_rate 9600 supported_baudrates ≡ none)))
    × ((err ≡ invalid_arg) → (fd ≡ pos 3) × (w' ≡ pos 3 ∷ pos 2 ∷ []))
    × ((err ≡ invalid_arg)
        ⊎ ((err ≡ ok) × (w' ≡ fd ∷ pos 2 ∷ []))
        ⊎ ((err ≡ fail) × (w' ≡ pos 2 ∷ [])))
open_port_held_example =
    open_port_held unflushed (λ w. w) unflushed-KeepsDescriptors (pos 3) (pos 3 ∷ pos 2 ∷ []) 1 9600
      (pos 2 ∷ []) refl

-- A port that could not be flushed is closed, and `_fd` still has its number.
open_port-unflushed : open_port unflushed (pos 3) (pos 3 ∷ []) 1 9600 ≡ (fail, pos 7, [])
unfolding open_port set_up
open_port-unflushed = refl

open_port-no_rate :
    open_port unflushed (pos 3) (pos 3 ∷ []) 1 9601 ≡ (invalid_arg, pos 3, pos 3 ∷ [])
unfolding open_port
open_port-no_rate = refl

open_port-flushed :
    (open_port (record unflushed { tcflush = λ w fd. (pos 0, w) }) (pos 3) (pos 3 ∷ []) 1 9600).0
    ≡ ok
unfolding open_port set_up
open_port-flushed = refl
