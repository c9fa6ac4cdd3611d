-- ===== src/Radio/Rf215/Interrupts/Laws.antt =====
-- When wait_irq reports an interrupt, and what it leaves in memory.
use kaonic_comm.Shared.{
  ℕ, ◌≡◌, ◌≢◌, ◌↔◌, true, false, none, some, List, arith, ◌==◌, if◌then◌else◌, memcpy, is_negative,
  Bool-cases, inl, inr,
}
use kaonic_comm.Failure.{is_ok}
use kaonic_comm.Drivers.Spi.{System, Spi, Transfer, address_transfer, read_buffer}
use kaonic_comm.Radio.Rf215.Interrupts.{Lines, wait_irq}

module _ {ℓ} {W : Type ℓ} (sys : System W) (lines : Lines W) where
  -- `wait_irq` reports an interrupt exactly if the line has an edge in time and the SPI device then
  -- reads the status, from address 0. Without an edge the memory is as it was; with one, the bytes
  -- that the device stored are in it, also if that failed, and the edge is taken off the line in both
  -- cases, so that an interrupt whose status is not read is not reported later either.
  wait_irq_lem :
      (irq_size : ℕ) (s : Spi) (w : W) (millis : ℕ) (memory : List ℕ)
      → irq_size ≢ 0
      → let (edge, w') = lines.wait_edge w millis in
        let transfer : Transfer = record {
          tx_buf = none;
          rx_buf = true;
          len = irq_size;
          speed_hz = s.config.speed;
          bits_per_word = s.config.bits_per_word;
        } in
        let (rc, stored, w'') =
          sys.message (lines.read_edges w') s.device_fd (address_transfer sys s 0) transfer in
        let (reported, irq, last) = wait_irq sys lines irq_size s w millis (some memory) in
        ((reported ≡ true) ↔ ((edge ≡ true) × (is_negative rc ≡ false)))
        × (irq ≡ some (if edge then memcpy memory stored else memory))
        × (last ≡ (if edge then w'' else w'))
  unfolding wait_irq read_buffer is_ok
  wait_irq_lem irq_size s w millis memory whole = elim (Bool-cases (irq_size == 0)) [
    | inl empty ↦ absurd (whole (ground arith))
    | inr some_bytes ↦ rw some_bytes (elim (Bool-cases (lines.wait_edge w millis).0) [
      | inl edge ↦ rw edge (ground arith)
      | inr no_edge ↦ rw no_edge (ground arith)
    ])
  ]
