-- ===== src/Mesh/Network/Laws.antt =====
-- What the calls of rfnet do over an rf215 radio, and when `transmit` returns.
use kaonic_comm.Shared.{
  ℕ, ◌^◌, ◌≤◌, ◌<◌, ◌≡◌, ◌≢◌, refl, ap, ◌∙◌, sym, ◌↔◌, ◌⊎◌, inl, inr, false, none, some, List, [],
  ◌∷◌, arith, length, take, resize, memcpy, memcpy_whole, length-resize, ltb, if◌then◌else◌,
  Bool-cases, ltb→lt, lt→ltb, le→not-ltb, pos, negsuc,
}
use mathlib.Core.Option.{some-ne-none}
use kaonic_comm.Failure.{Error, ok, not_ready, invalid_arg, is_ok}
use kaonic_comm.Radio.{Frame, RadioFrame, data_max_size}
use kaonic_comm.Radio.Rf215.Registers.{TrxType}
use kaonic_comm.Radio.Rf215.Device.{Driver, Rf215Radio, is_success}
use kaonic_comm.Radio.Rf215.Device.Transfer.{Succeeds, is_success_iff}
use kaonic_comm.Mesh.Interface.{rf215_device, NetworkInterface}
use kaonic_comm.Mesh.Interface.Laws.{transmit-rf215, receive-rf215, length-take}
use kaonic_comm.Mesh.Network.{
  InterfacePort, interface_port, Network, tx, rx, Rfnet, wait_free, transmit,
}

pub refilled : (old bytes : List ℕ) → memcpy (resize 0 (length bytes) old) bytes ≡ bytes
refilled old bytes =
    memcpy_whole (resize 0 (length bytes) old) bytes (length-resize 0 (length bytes) old)

module _ {ℓ} {I : Type ℓ} (port : InterfacePort I) (n : Network I) where
  tx_iff :
      (bytes : List ℕ)
      → ((tx port n bytes).0 ≡ pos 0) ↔ ((port.transmit n.net_interface bytes).0 ≡ ok)
  unfolding tx is_ok
  tx_iff bytes = rw (refilled n.net_frame bytes) (ground arith)

  rx_fits :
      (memory : List ℕ) (max_len : ℕ) (f : Frame)
      → (port.receive n.net_interface n.net_frame).0 ≡ ok
      → (port.receive n.net_interface n.net_frame).1 ≡ f
      → length f ≤ max_len
      → length f < 2 ^ 31
      → ((rx port n memory max_len).0 ≡ pos (length f))
        × ((rx port n memory max_len).1 ≡ memcpy memory f)
  unfolding rx is_ok
  rx_fits memory max_len f e g h k = rw (e, g, le→not-ltb max_len (length f) h) (ground arith)

  rx_too_long :
      (memory : List ℕ) (max_len : ℕ) (f : Frame)
      → (port.receive n.net_interface n.net_frame).0 ≡ ok
      → (port.receive n.net_interface n.net_frame).1 ≡ f
      → max_len < length f
      → ((rx port n memory max_len).0 ≡ negsuc 0) × ((rx port n memory max_len).1 ≡ memory)
  unfolding rx is_ok
  rx_too_long memory max_len f e g h = rw (e, g, lt→ltb max_len (length f) h) (refl, refl)

  rx_refused :
      (memory : List ℕ) (max_len : ℕ)
      → (port.receive n.net_interface n.net_frame).0 ≢ ok
      → ((rx port n memory max_len).0 ≡ negsuc 0) × ((rx port n memory max_len).1 ≡ memory)
  unfolding rx is_ok
  rx_refused memory max_len e = ground arith

ok_is_valid : ok ≢ invalid_arg
ok_is_valid e = ground arith

Error-cases : (err : Error) → (err ≡ ok) ⊎ (err ≢ ok)
Error-cases err = ground arith

not-ltb→le : (a b : ℕ) → ltb a b ≡ false → b ≤ a
not-ltb→le a b h = ground arith

module _ {ℓ} {D : Type ℓ} (driver : Driver D) (n : Network (NetworkInterface (Rf215Radio D)))
    (trx : TrxType) where
  -- Over a configured rf215 radio, `tx` returns 0 exactly if the bytes fit 2048 and one of four
  -- attempts finds the channel free; each attempt is given these bytes and no others.
  pub tx-rf215 :
      (bytes : List ℕ)
      → n.net_interface.radio.active_trx ≡ some trx
      → length n.net_interface.tx_frame.payload ≡ data_max_size
      → let whole : RadioFrame = record { len = length bytes; payload = bytes } in
        ((tx (interface_port (rf215_device driver)) n bytes).0 ≡ pos 0)
        ↔ ((length bytes ≤ data_max_size) × Succeeds driver trx whole 4 n.net_interface.radio.dev)
  unfolding interface_port
  tx-rf215 bytes a size =
      let sent = transmit-rf215 driver n.net_interface trx bytes a size in
      let same = tx_iff (interface_port (rf215_device driver)) n bytes in
      elim (Bool-cases (ltb data_max_size (length bytes))) [
        | inl long ↦ (
          λ e. absurd (ok_is_valid (sym (same.0 e) ∙ (sent.1 (ltb→lt _ _ long)).0)),
          λ (fits, s). absurd (omega (arith, ltb→lt _ _ long)),
        )
        | inr short ↦
            let fits = not-ltb→le _ _ short in
            (λ e. (fits, (sent.0 fits).0.0 (same.0 e)), λ (h, s). same.1 ((sent.0 fits).0.1 s))
      ]

  -- Over a configured rf215 radio, `rx` returns the length of what the driver received, and has
  -- copied these bytes to the head of the memory, if the driver returns 0 and a length above 0 that
  -- is no more than `max_len`; otherwise it returns -1 and leaves the memory alone. The driver is
  -- taken to return a length of no more than its buffer, and that to have 2048 bytes.
  pub rx-rf215 :
      (memory : List ℕ) (max_len : ℕ)
      → n.net_interface.radio.active_trx ≡ some trx
      → let got =
          (driver.rx n.net_interface.radio.dev trx 1 data_max_size
            n.net_interface.rx_frame.payload).0 in
        got.len ≤ length got.buffer
        → length got.buffer ≡ data_max_size
        → let (rc, memory', n') = rx (interface_port (rf215_device driver)) n memory max_len in
          let IsReceived = (got.rc ≡ pos 0) × (0 < got.len) × (got.len ≤ max_len) in
          (IsReceived → (rc ≡ pos got.len) × (memory' ≡ memcpy memory (take got.len got.buffer)))
          × (¬ IsReceived → (rc ≡ negsuc 0) × (memory' ≡ memory))
  unfolding interface_port
  rx-rf215 memory max_len a h size =
      let port = interface_port (rf215_device driver) in
      let got = receive-rf215 driver n.net_interface trx n.net_frame a h in
      let cut = length-take _ _ h in
      (
        λ (c, l, fits).
            let (rc, copied) =
              rx_fits port n memory max_len _ (got.0.1 (c, l)) (got.1 (got.0.1 (c, l)))
                (omega arith) (omega arith) in
            (rc ∙ ap pos cut, copied),
        λ refused. elim (Error-cases (port.receive n.net_interface n.net_frame).0) [
          | inl e ↦
              rx_too_long port n memory max_len _ e (got.1 e)
                (elim (Bool-cases (ltb max_len (length (take _ _)))) [
                  | inl long ↦ ltb→lt _ _ long
                  | inr short ↦ absurd (
                      refused
                        ((got.0.0 e).0, (got.0.0 e).1, omega (arith, not-ltb→le _ _ short, cut)))
                ])
          | inr e ↦ rx_refused port n memory max_len e
        ],
      )

-- The state at a place of the sequence of states, all before which are not free.
abbrev pub IsFirstFree {ℓ} : {N : Type ℓ} → Rfnet N → N → List N → N → Type ℓ
IsFirstFree rfnet n [] m = (rfnet.is_tx_free n ≡ pos 0) × (m ≡ n)
IsFirstFree rfnet n (n' ∷ later) m =
    ((rfnet.is_tx_free n ≡ pos 0) × (m ≡ n))
    ⊎ ((rfnet.is_tx_free n ≢ pos 0) × IsFirstFree rfnet n' later m)

module _ {ℓ} {N : Type ℓ} (rfnet : Rfnet N) where
  wait_free-some :
      (n : N) (later : List N) (m : N)
      → IsFirstFree rfnet n later m
      → wait_free rfnet n later ≡ some m
  unfolding wait_free
  wait_free-some n [] m h = ground arith
  wait_free-some n (n' ∷ later) m (inl h) = ground arith
  wait_free-some n (n' ∷ later) m (inr h) = ground (arith, wait_free-some n' later m h.1)

  wait_free-none :
      (n : N) (later : List N)
      → (wait_free rfnet n later ≡ none) ⊎ ((m : N) × IsFirstFree rfnet n later m)
  unfolding wait_free
  wait_free-none n [] = elim (Bool-cases (is_success (rfnet.is_tx_free n))) [
    | inl e ↦ inr (n, ((is_success_iff _).0 e, refl))
    | inr e ↦ inl (rw e refl)
  ]
  wait_free-none n (n' ∷ later) = elim (Bool-cases (is_success (rfnet.is_tx_free n))) [
    | inl e ↦ inr (n, inl ((is_success_iff _).0 e, refl))
    | inr e ↦ elim (wait_free-none n' later) [
      | inl none_free ↦ inl (rw e none_free)
      | inr (m, first) ↦ inr (m, inr (ground arith, first))
    ]
  ]

  transmit_first :
      (n : N) (later : List N) (frame : Frame) (m : N)
      → IsFirstFree rfnet n later m
      → let (rc, m') = rfnet.send m frame in
        transmit rfnet n later frame ≡ some (if is_success rc then ok else not_ready, m')
  unfolding transmit
  transmit_first n later frame m first = rw (wait_free-some n later m first, transmit) refl

  -- `transmit` returns exactly if rfnet is free in one of the states that it finds under the lock.
  -- In the first of these it sends the frame, once, and returns `ok` if rfnet takes it and
  -- `not_ready` if not.
  pub transmit-IsFirstFree :
      (n : N) (later : List N) (frame : Frame)
      → ((transmit rfnet n later frame ≢ none) ↔ ((m : N) × IsFirstFree rfnet n later m))
        × ((m : N)
            → IsFirstFree rfnet n later m
            → let (rc, m') = rfnet.send m frame in
              transmit rfnet n later frame ≡ some (if is_success rc then ok else not_ready, m'))
  unfolding transmit
  transmit-IsFirstFree n later frame = (
    (
      λ h. elim (wait_free-none n later) [
        | inl e ↦ absurd (h (rw (e, transmit) refl))
        | inr first ↦ first
      ],
      λ (m, first) e. absurd (some-ne-none _ (sym (transmit_first n later frame m first) ∙ e)),
    ),
    transmit_first n later frame,
  )
