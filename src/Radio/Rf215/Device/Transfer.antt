-- ===== src/Radio/Rf215/Device/Transfer.antt =====
-- What rf215_radio::transmit and rf215_radio::receive return.
use kaonic_comm.Radio.{data_max_size}
use kaonic_comm.Shared.{
  Bool-cases, ◌≢◌, ℕ, zero, suc, ◌+◌, ◌<◌, ◌≡◌, refl, ◌↔◌, ◌⊎◌, inl, inr, true, none, some, arith,
  ℤ, pos,
}
use kaonic_comm.Failure.{ok, fail, precondition_failed, timeout}
use kaonic_comm.Radio.{RadioFrame}
use kaonic_comm.Radio.Rf215.Registers.{TrxType}
use kaonic_comm.Radio.Rf215.Device.{
  Driver, Rf215Radio, attempts, driver_frame, transmit, is_success, receive,
}

module _ {ℓ} {D : Type ℓ} (driver : Driver D) (trx : TrxType) (frame : RadioFrame) where
  -- The chip after `k` attempts, and the return code of the next.
  abbrev pub after : ℕ → D → D
  after zero d = d
  after (suc k) d = after k (driver.cca_tx_frame d trx frame).1

  abbrev pub code : ℕ → D → ℤ
  code k d = (driver.cca_tx_frame (after k d) trx frame).0

  -- One of the first `n` attempts returns 0.
  abbrev pub Succeeds : ℕ → D → Type 0
  Succeeds n d = (k : ℕ) × (k < n) × (code k d ≡ pos 0)

pub is_success_iff : (z : ℤ) → (is_success z ≡ true) ↔ (z ≡ pos 0)
is_success_iff z = ground arith

module _ {ℓ} {D : Type ℓ} (driver : Driver D) (trx : TrxType) (frame : RadioFrame) where
  attempts_sound :
      (n : ℕ) (d : D) → (attempts driver n d trx frame).0 ≡ ok → Succeeds driver trx frame n d
  unfolding attempts
  attempts_sound zero d h = cc
  attempts_sound (suc n) d h = elim (Bool-cases (is_success (driver.cca_tx_frame d trx frame).0)) [
    | inl e ↦ (0, omega arith, (is_success_iff _).0 e)
    | inr e ↦
        let (k, lt, c) = attempts_sound n (driver.cca_tx_frame d trx frame).1 (rw e at h) in
        (suc k, omega arith, c)
  ]

  attempts_complete :
      (n k : ℕ) (d : D)
      → k < n
      → code driver trx frame k d ≡ pos 0
      → (attempts driver n d trx frame).0 ≡ ok
  unfolding attempts
  attempts_complete zero k d h c = absurd (omega arith)
  attempts_complete (suc n) zero d h c = rw c
  attempts_complete (suc n) (suc k) d h c =
      ground (arith, attempts_complete n k (driver.cca_tx_frame d trx frame).1 (omega arith) c)

  attempts-or :
      (n : ℕ) (d : D)
      → ((attempts driver n d trx frame).0 ≡ ok) ⊎ ((attempts driver n d trx frame).0 ≡ fail)
  unfolding attempts
  attempts-or zero d = inr refl
  attempts-or (suc n) d = ground (arith, attempts-or n (driver.cca_tx_frame d trx frame).1)

module _ {ℓ} {D : Type ℓ} (driver : Driver D) (r : Rf215Radio D) (trx : TrxType) where
  -- A configured radio transmits successfully exactly if one of its first four attempts finds the
  -- channel free; otherwise it fails. The frame is counted on both paths.
  pub transmit_lem :
      (frame : RadioFrame)
      → r.active_trx ≡ some trx
      → let (err, r') = transmit driver r frame in
        ((err ≡ ok) ↔ Succeeds driver trx (driver_frame driver frame) 4 r.dev)
        × ((err ≡ ok) ⊎ (err ≡ fail))
        × (r'.tx_counter ≡ r.tx_counter + 1)
  unfolding transmit
  transmit_lem frame e = rw e (
    (
      attempts_sound driver trx (driver_frame driver frame) 4 r.dev,
      λ (k, lt, c). attempts_complete driver trx (driver_frame driver frame) 4 k r.dev lt c,
    ),
    attempts-or driver trx (driver_frame driver frame) 4 r.dev,
    refl,
  )

  -- A configured radio receives a frame exactly if the driver returns 0 and a length above 0; the
  -- frame then has that length and the driver's bytes. Otherwise the error is `timeout`, and the
  -- length of the frame and the counter stay.
  pub receive_lem :
      (frame : RadioFrame) (millis : ℕ)
      → r.active_trx ≡ some trx
      → let got = (driver.rx r.dev trx millis data_max_size frame.payload).0 in
        let (err, frame', r') = receive driver r frame millis in
        ((err ≡ ok) ↔ ((got.rc ≡ pos 0) × (0 < got.len)))
        × ((err ≡ ok)
            → (frame' ≡ record { len = got.len; payload = got.buffer })
              × (r'.rx_counter ≡ r.rx_counter + 1))
        × ((err ≢ ok) → (err ≡ timeout) × (frame'.len ≡ frame.len) × (r'.rx_counter ≡ r.rx_counter))
  unfolding receive
  receive_lem frame millis e = rw e (ground arith)

-- A radio that was never configured refuses to transmit and to receive, and does not change.
pub unconfigured_refuses {ℓ} :
    {D : Type ℓ} (driver : Driver D) (r : Rf215Radio D) (frame : RadioFrame) (millis : ℕ)
    → r.active_trx ≡ none
    → (transmit driver r frame ≡ (precondition_failed, r))
      × (receive driver r frame millis ≡ (precondition_failed, frame, r))
unfolding transmit receive
unconfigured_refuses driver r frame millis e = (rw e, rw e)
