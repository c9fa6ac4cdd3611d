-- ===== src/Serial/Port/Laws.antt =====
-- What open of the serial port leaves open, and how it refuses.
use kaonic_comm.Shared.{
  ℕ, ◌≡◌, ap, ◌∙◌, ◌⊎◌, inl, inr, ◌↔◌, true, false, none, List, ◌∷◌, arith, ℤ, Bool-cases,
  Option-cases,
}
use kaonic_comm.Failure.{ok, fail, invalid_arg}
use kaonic_comm.Drivers.Spi.{is_minus_one}
use kaonic_comm.Serial.Port.{
  Termios, Tty, find_rate, supported_baudrates, raw_options, set_up, open_port,
}

-- What the system keeps of its descriptors, by their documentation.
pub record KeepsDescriptors {ℓ} {W : Type ℓ} (tty : Tty W) (held : W → List ℤ) : Type ℓ where
  pub opened :
      (w : W) (path : ℕ)
      → is_minus_one (tty.open_device w path).0 ≡ false
      → held (tty.open_device w path).1 ≡ (tty.open_device w path).0 ∷ held w
  pub not_opened :
      (w : W) (path : ℕ)
      → is_minus_one (tty.open_device w path).0 ≡ true
      → held (tty.open_device w path).1 ≡ held w
  pub flushed : (w : W) (fd : ℤ) → held (tty.tcflush w fd).1 ≡ held w
  pub set : (w : W) (fd : ℤ) (t : Termios) → held (tty.tcsetattr w fd t).1 ≡ held w
  pub closed : (w : W) (fd : ℤ) (rest : List ℤ) → held w ≡ fd ∷ rest → held (tty.close w fd) ≡ rest

module _ {ℓ} {W : Type ℓ} (tty : Tty W) (held : W → List ℤ) (k : KeepsDescriptors tty held) where
  set_up_held :
      (w : W) (fd : ℤ) (speed : ℕ) (rest : List ℤ)
      → held w ≡ fd ∷ rest
      → let (err, w') = set_up tty w fd speed in
        ((err ≡ ok) × (held w' ≡ fd ∷ rest)) ⊎ ((err ≡ fail) × (held w' ≡ rest))
  unfolding set_up
  set_up_held w fd speed rest h =
      let (out_rc, options) =
        tty.cfsetospeed (tty.cfsetispeed (tty.tcgetattr w fd).1 speed).1 speed in
      let flushed = (tty.tcflush w fd).1 in
      let last = (tty.tcsetattr flushed fd (raw_options options)).1 in
      let h' = k.flushed w fd ∙ h in
      let h'' = k.set flushed fd (raw_options options) ∙ h' in
      ground
        (arith, h'', k.closed w fd rest h, k.closed flushed fd rest h', k.closed last fd rest h'')

  -- Over a system that keeps its descriptors, for a port that holds one: `open` refuses a path that
  -- does not exist and a rate that is not in the table, and no other, with `invalid_arg`, and
  -- changes nothing then. Otherwise it closes the descriptor of before, and returns `ok` and holds
  -- the new one in its place, or returns `fail` and holds none.
  pub open_port_held :
      (fd : ℤ) (w : W) (path rate : ℕ) (rest : List ℤ)
      → held w ≡ fd ∷ rest
      → let (err, fd', w') = open_port tty fd w path rate in
        ((err ≡ invalid_arg)
          ↔ ((tty.exists w path ≡ false) ⊎ (find_rate rate supported_baudrates ≡ none)))
        × ((err ≡ invalid_arg → (fd' ≡ fd) × (w' ≡ w)))
        × ((err ≡ invalid_arg)
            ⊎ ((err ≡ ok) × (held w' ≡ fd' ∷ rest))
            ⊎ ((err ≡ fail) × (held w' ≡ rest)))
  unfolding open_port
  open_port_held fd w path rate rest h = elim (Bool-cases (tty.exists w path)) [
    | inr e ↦ rw e (ground arith)
    | inl e ↦ elim (Option-cases (find_rate rate supported_baudrates)) [
      | inl none_found ↦ rw (e, none_found) (ground arith)
      | inr (found, r) ↦
          rw (e, r)
            (let shut = tty.close w fd in
              let gone = k.closed w fd rest h in
              let (new_fd, w') = tty.open_device shut path in
              elim (Bool-cases (is_minus_one new_fd)) [
                | inl c ↦ rw c (ground (arith, k.not_opened shut path c, gone))
                | inr c ↦
                    let kept =
                      set_up_held w' new_fd (tty.baud_code found) rest
                        (k.opened shut path c ∙ ap (λ l. new_fd ∷ l) gone) in
                    rw c (ground (arith, kept))
              ])
    ]
  ]
