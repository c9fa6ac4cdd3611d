-- ===== src/Services/Grpc/Overlap/Receives.antt =====
-- What loops of ReceiveStream do that overlap, and that do not.
use kaonic_comm.Shared.{
  ℕ, zero, suc, ◌<◌, ◌≡◌, ◌≢◌, refl, sym, subst, ap, ap₂, ◌∙◌, some, List, [], ◌∷◌, arith, length,
  take, get_elem?, set, get_elem?-set_self, get_elem?-set_other, set-set, length-set, drop,
  drop-nil, get_elem?-set, ◌==◌, Bool-cases, inl, inr, All,
}
use kaonic_comm.Messages.{FrameMessage}
use kaonic_comm.Radio.{Frame}
use kaonic_comm.Services.Buffers.{grpc_buf_unpack}
use kaonic_comm.Services.Buffers.Laws.{grpc_buf_pack-grpc_buf_unpack}
use kaonic_comm.Services.Grpc.{pop_frame}
use kaonic_comm.Services.Grpc.Stream.{IsSendable, received}
use kaonic_comm.Services.Grpc.Overlap.{
  polling, popped, Streams, take_frame, advance_stream, run_streams,
}

-- Both steps of each loop of the list, one loop after the other.
abbrev one_by_one : List ℕ → List ℕ
one_by_one [] = []
one_by_one (c ∷ cs) = c ∷ c ∷ one_by_one cs

-- Each loop is before its `pop_frame`.
abbrev pub IsPolling : Streams → Type 0
IsPolling v =
    (c : ℕ) → c < length v.streams → (m : FrameMessage) × (get_elem? v.streams c ≡ some (polling m))

advance_polling :
    (v : Streams) (c : ℕ) (m : FrameMessage) (f : Frame) (queue : List Frame)
    → get_elem? v.streams c ≡ some (polling m)
    → v.queue ≡ f ∷ queue
    → advance_stream v c
      ≡ (record { queue = queue; rx_frame = f; streams = set v.streams c (popped m) }, [])
unfolding advance_stream
advance_polling v c m f queue h e = rw (h, e, advance_stream) refl

take_frame_empty : (v : Streams) (c : ℕ) (m : FrameMessage) → v.queue ≡ [] → take_frame v c m ≡ v
unfolding take_frame pop_frame
take_frame_empty v c m e = ground arith

idle_step :
    (v : Streams) (c : ℕ) (m : FrameMessage)
    → get_elem? v.streams c ≡ some (polling m)
    → v.queue ≡ []
    → advance_stream v c ≡ (v, [])
unfolding advance_stream
idle_step v c m h e =
    rw (h, advance_stream) (ap (λ (u : Streams). (u, [])) (take_frame_empty v c m e))

advance_popped :
    (v : Streams) (c : ℕ) (m : FrameMessage)
    → get_elem? v.streams c ≡ some (popped m)
    → let m' = grpc_buf_unpack v.rx_frame m in
      advance_stream v c ≡ (record v { streams = set v.streams c (polling m') }, m' ∷ [])
unfolding advance_stream
advance_popped v c m h = rw (h, advance_stream) refl

-- Two loops that overlap, with the frames `f` and `g` at the front of the queue: both write `g`, of
-- bytes, and neither writes `f`, which has left the queue as well.
pub overlapping_streams :
    (v : Streams) (a b : ℕ) (f g : Frame) (queue : List Frame) (m n : FrameMessage)
    → a ≢ b
    → get_elem? v.streams a ≡ some (polling m)
    → get_elem? v.streams b ≡ some (polling n)
    → v.queue ≡ f ∷ g ∷ queue
    → IsSendable g
    → let (last, writes) = run_streams v (a ∷ b ∷ a ∷ b ∷ []) in
      (received writes ≡ g ∷ g ∷ []) × (last.queue ≡ queue)
unfolding run_streams
overlapping_streams v a b f g queue m n ne ha hb e fits =
    let v1 : Streams = record {
      queue = g ∷ queue;
      rx_frame = f;
      streams = set v.streams a (popped m);
    } in
    let v2 : Streams = record {
      queue = queue;
      rx_frame = g;
      streams = set v1.streams b (popped n);
    } in
    let m' = grpc_buf_unpack g m in
    let n' = grpc_buf_unpack g n in
    let v3 = record v2 { streams = set v2.streams a (polling m') } in
    let hb1 = get_elem?-set_other v.streams a b (popped m) ne ∙ hb in
    let ha2 =
      get_elem?-set_other v1.streams b a (popped n) (λ q. ne (sym q))
      ∙ get_elem?-set_self v.streams a (popped m) (polling m) ha in
    let hb3 =
      get_elem?-set_other v2.streams a b (polling m') ne
      ∙ get_elem?-set_self v1.streams b (popped n) (polling n) hb1 in
    let whole = λ (o : FrameMessage). grpc_buf_pack-grpc_buf_unpack g o [] fits.0 fits.1 in
    rw
      (
        advance_polling v a m f (g ∷ queue) ha e,
        advance_polling v1 b n g queue hb1 refl,
        advance_popped v2 a m ha2,
        advance_popped v3 b n hb3,
      )
      (ap₂ (λ (x y : Frame). x ∷ y ∷ []) (whole m) (whole n), refl)

-- A turn of a loop that is not interrupted: it takes the frame at the front and writes it.
turn :
    (v : Streams) (c : ℕ) (m : FrameMessage) (f : Frame) (queue : List Frame) (rest : List ℕ)
    → get_elem? v.streams c ≡ some (polling m)
    → v.queue ≡ f ∷ queue
    → let m' = grpc_buf_unpack f m in
      let v' : Streams = record {
        queue = queue;
        rx_frame = f;
        streams = set v.streams c (polling m');
      } in
      let (last, writes) = run_streams v' rest in run_streams v (c ∷ c ∷ rest) ≡ (last, m' ∷ writes)
unfolding run_streams
turn v c m f queue rest h e =
    let m' = grpc_buf_unpack f m in
    let v1 : Streams = record {
      queue = queue;
      rx_frame = f;
      streams = set v.streams c (popped m);
    } in
    let h1 = get_elem?-set_self v.streams c (popped m) (polling m) h in
    rw
      (
        advance_polling v c m f queue h e,
        advance_popped v1 c m h1,
        set-set v.streams c (popped m) (polling m'),
      )
      refl

-- A turn that finds the queue empty.
idle_turn :
    (v : Streams) (c : ℕ) (m : FrameMessage) (rest : List ℕ)
    → get_elem? v.streams c ≡ some (polling m)
    → v.queue ≡ []
    → run_streams v (c ∷ c ∷ rest) ≡ run_streams v rest
unfolding run_streams
idle_turn v c m rest h e = rw (idle_step v c m h e, idle_step v c m h e) refl

set-IsPolling :
    (v : Streams) (c : ℕ) (m : FrameMessage) (queue : List Frame) (f : Frame)
    → IsPolling v
    → c < length v.streams
    → IsPolling (record { queue = queue; rx_frame = f; streams = set v.streams c (polling m) })
set-IsPolling v c m queue f p lt d h = elim (Bool-cases (d == c)) [
  | inl own ↦ (m, get_elem?-set v.streams c d (polling m) lt ∙ rw own refl)
  | inr other ↦
      let (n, e) = p d (omega (arith, length-set v.streams c (polling m))) in
      (n, get_elem?-set v.streams c d (polling m) lt ∙ rw other e)
]

take-nil : (n : ℕ) → take {A = Frame} n [] ≡ []
take-nil zero = refl
take-nil (suc n) = refl

-- Loops that do not overlap share the queue: in whatever order they take their turns, the frames of
-- the queue are written in its order, each once, by the loop whose turn it is, as many as there are
-- turns.
pub run_streams-one_by_one :
    (cs : List ℕ) (v : Streams) (queue : List Frame)
    → IsPolling v
    → All (λ c. c < length v.streams) cs
    → v.queue ≡ queue
    → All IsSendable queue
    → let (last, writes) = run_streams v (one_by_one cs) in
      (received writes ≡ take (length cs) queue) × (last.queue ≡ drop (length cs) queue)
run_streams-one_by_one [] v queue p cs e s = unfold run_streams in (refl, e)
run_streams-one_by_one (c ∷ cs) v [] p h e s =
    let (m, now) = p c h.0 in
    rw (idle_turn v c m (one_by_one cs) now e) (
      let (w, q) = run_streams-one_by_one cs v [] p h.1 e s in
      (w ∙ take-nil (length cs), q ∙ drop-nil Frame (length cs)))
run_streams-one_by_one (c ∷ cs) v (f ∷ queue) p h e s =
    let (m, now) = p c h.0 in
    let m' = grpc_buf_unpack f m in
    let v' : Streams = record {
      queue = queue;
      rx_frame = f;
      streams = set v.streams c (polling m');
    } in
    let same = length-set v.streams c (polling m') in
    let (w, q) =
      run_streams-one_by_one cs v' queue (set-IsPolling v c m' queue f p h.0)
        (subst (λ n. All (λ d. d < n) cs) (sym same) h.1) refl s.1 in
    rw (turn v c m f queue (one_by_one cs) now e) (
      ap₂ (λ (x : Frame) (xs : List Frame). x ∷ xs)
          (grpc_buf_pack-grpc_buf_unpack f m [] s.0.0 s.0.1) w,
      q,
    )
