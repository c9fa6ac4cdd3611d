-- ===== src/Services/Grpc/Overlap/Transmits.antt =====
-- What calls of Transmit do that overlap.
use kaonic_comm.Shared.{
  ℕ, ◌<◌, ◌^◌, ◌≡◌, ◌≢◌, refl, sym, ap, ◌∙◌, some, [], ◌∷◌, arith, length, get_elem?, set,
  get_elem?-set_self, get_elem?-set_other, u8, All, IsByte,
}
use kaonic_comm.Messages.{FrameMessage, TransmitRequest}
use kaonic_comm.Radio.{Frame}
use kaonic_comm.Services.Buffers.{grpc_buf_pack, grpc_buf_unpack}
use kaonic_comm.Services.Buffers.Laws.{grpc_buf_pack-grpc_buf_unpack}
use kaonic_comm.Services.RadioPort.{RadioPort}
use kaonic_comm.Services.Grpc.{status_of}
use kaonic_comm.Services.Grpc.Overlap.{waiting, packed, Server, answer, pack, send, advance, run}

module _ {ℓ} {S : Type ℓ} (port : RadioPort S) where
  advance-pack :
      (v : Server S) (c : ℕ) (m : TransmitRequest)
      → get_elem? v.calls c ≡ some (waiting m)
      → advance port v c ≡ pack v c m
  unfolding advance
  advance-pack v c m h = rw (h, advance) refl

  advance-send :
      (v : Server S) (c : ℕ) (m : TransmitRequest)
      → get_elem? v.calls c ≡ some (packed m)
      → advance port v c ≡ send port v c m
  unfolding advance
  advance-send v c m h = rw (h, advance) refl

  -- The server behind the first step of a call, if there is a radio service.
  abbrev packed_by : Server S → ℕ → TransmitRequest → Server S
  packed_by v c m = record {
    service = record v.service { tx_frame = grpc_buf_pack m.frame v.service.tx_frame };
    calls = set v.calls c (packed m);
  }

  -- The server behind the second.
  abbrev sent_by : Server S → ℕ → TransmitRequest → S → Server S
  sent_by v c m radio =
      let (err, radio') = port.transmit radio (u8 m.module_index) v.service.tx_frame in
      answer (record v { service = record v.service { radio = some radio' } }) c (status_of err)

  pack_lem :
      (v : Server S) (c : ℕ) (m : TransmitRequest) (radio : S)
      → v.service.radio ≡ some radio
      → pack v c m ≡ packed_by v c m
  unfolding pack
  pack_lem v c m radio e = ground arith

  send_lem :
      (v : Server S) (c : ℕ) (m : TransmitRequest) (radio : S)
      → v.service.radio ≡ some radio
      → send port v c m ≡ sent_by v c m radio
  unfolding send
  send_lem v c m radio e = ground arith

  -- Two calls of which both have packed their frame, the second last, and either sends next.
  sends_first :
      (v : Server S) (x y : ℕ) (m n : TransmitRequest) (radio : S)
      → x ≢ y
      → get_elem? v.calls x ≡ some (packed m)
      → get_elem? v.calls y ≡ some (packed n)
      → v.service.radio ≡ some radio
      → let f = v.service.tx_frame in
        (run port v (x ∷ y ∷ [])).service.radio
        ≡ some (port.transmit (port.transmit radio (u8 m.module_index) f).1 (u8 n.module_index) f).1
  unfolding run
  sends_first v x y m n radio ne hx hy e =
      let v1 = sent_by v x m radio in
      let radio' = (port.transmit radio (u8 m.module_index) v.service.tx_frame).1 in
      let first : advance port v x ≡ v1 = advance-send v x m hx ∙ send_lem v x m radio e in
      let second : advance port v1 y ≡ sent_by v1 y n radio' =
        advance-send v1 y n (get_elem?-set_other v.calls x y _ ne ∙ hy)
        ∙ send_lem v1 y n radio' refl in
      ap (λ (u : Server S). u.service.radio) (ap (λ u. advance port u y) first ∙ second)

  -- Two calls, each with a frame that its client unpacked, of which the one packs its frame and then
  -- the other, before either has sent: in whichever order they then send, both transmit the frame of
  -- the other, of bytes, each to its own module, whatever the frame of the one was.
  pub overlapping_calls :
      (v : Server S) (a b i j : ℕ) (f g : Frame) (old old' : FrameMessage) (radio : S)
      → a ≢ b
      → get_elem? v.calls a
        ≡ some (waiting (record { module_index = i; frame = grpc_buf_unpack f old }))
      → get_elem? v.calls b
        ≡ some (waiting (record { module_index = j; frame = grpc_buf_unpack g old' }))
      → v.service.radio ≡ some radio
      → All IsByte g
      → length g < 2 ^ 32
      → ((run port v (a ∷ b ∷ a ∷ b ∷ [])).service.radio
          ≡ some (port.transmit (port.transmit radio (u8 i) g).1 (u8 j) g).1)
        × ((run port v (a ∷ b ∷ b ∷ a ∷ [])).service.radio
            ≡ some (port.transmit (port.transmit radio (u8 j) g).1 (u8 i) g).1)
  unfolding run
  overlapping_calls v a b i j f g old old' radio ne ha hb e bytes fits =
      let ma : TransmitRequest = record { module_index = i; frame = grpc_buf_unpack f old } in
      let mb : TransmitRequest = record { module_index = j; frame = grpc_buf_unpack g old' } in
      let v1 = packed_by v a ma in
      let v2 = packed_by v1 b mb in
      let same = grpc_buf_pack-grpc_buf_unpack g old' v1.service.tx_frame bytes fits in
      let still = get_elem?-set_other v.calls a b (packed ma) ne ∙ hb in
      let step1 : advance port v a ≡ v1 = advance-pack v a ma ha ∙ pack_lem v a ma radio e in
      let step2 : advance port v1 b ≡ v2 = advance-pack v1 b mb still ∙ pack_lem v1 b mb radio e in
      let both : advance port (advance port v a) b ≡ v2 =
        ap (λ u. advance port u b) step1 ∙ step2 in
      let at_a =
        get_elem?-set_other v1.calls b a (packed mb) (λ q. ne (sym q))
        ∙ get_elem?-set_self v.calls a (packed ma) (waiting ma) ha in
      let at_b = get_elem?-set_self v1.calls b (packed mb) (waiting mb) still in
      (
        ap (λ (u : Server S). (run port u (a ∷ b ∷ [])).service.radio) both
            ∙ sends_first v2 a b ma mb radio ne at_a at_b e
            ∙ ap (λ (h : Frame). some (port.transmit (port.transmit radio (u8 i) h).1 (u8 j) h).1)
                same,
        ap (λ (u : Server S). (run port u (b ∷ a ∷ [])).service.radio) both
            ∙ sends_first v2 b a mb ma radio (λ q. ne (sym q)) at_b at_a e
            ∙ ap (λ (h : Frame). some (port.transmit (port.transmit radio (u8 j) h).1 (u8 i) h).1)
                same,
      )
