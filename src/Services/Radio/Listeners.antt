-- ===== src/Services/Radio/Listeners.antt =====
-- Who hears of a received frame, and how often.
use mathlib.Core.Option.{some-injective}
use kaonic_comm.Shared.{
  ℕ, zero, suc, ◌+◌, ◌≡◌, refl, sym, ap, ◌∙◌, Bool, true, some, List, [], ◌∷◌, ◌++◌, map,
  append-nil, append_assoc, length, get_elem?, get_or, replicate,
}
use kaonic_comm.Radio.{Frame}
use kaonic_comm.Mesh.Receiver.{Broadcaster, on_receive}
use kaonic_comm.Services.Radio.{
  MeshConfig, NetworkPort, RadioService, create_networks, start_all, radio_service, frame_received,
  attach_each, attach_listener,
}

-- A network hands its frames to the receiver that it was created with, also once it is started.
pub record KeepsReceiver {ℓ} {R N : Type ℓ} (net : NetworkPort R N) : Type ℓ where
  pub created : (c : MeshConfig) (r : R) (b : ℕ) → net.receiver (net.create c r b) ≡ b
  pub started : (n : N) → net.receiver (net.start n).1 ≡ net.receiver n

-- Each of the elements, `n` times.
abbrev pub repeat_each : ℕ → List ℕ → List ℕ
repeat_each n [] = []
repeat_each n (l ∷ ls) = replicate n l ++ repeat_each n ls

abbrev pub attach_all {ℓ} : {N : Type ℓ} → RadioService N → List ℕ → RadioService N
attach_all s [] = s
attach_all s (l ∷ ls) = attach_all (attach_listener s (some l)) ls

attach_each-replicate :
    (n : ℕ) (b : Broadcaster) (l : ℕ)
    → attach_each (replicate n 0) (b ∷ []) l ≡ (b ++ replicate n l) ∷ []
unfolding attach_each
attach_each-replicate zero b l = rw (append-nil b)
attach_each-replicate (suc n) b l =
    attach_each-replicate n (b ++ l ∷ []) l
    ∙ ap (λ (x : Broadcaster). x ∷ []) (append_assoc b (l ∷ []) (replicate n l))

-- All pointers lead to the one broadcaster, whose listeners are `b`.
record IsShared {ℓ} {N : Type ℓ} (n : ℕ) (b : Broadcaster) (s : RadioService N) : Type ℓ where
  one : s.heap ≡ b ∷ []
  pointers : s.broadcasters ≡ replicate n 0

module _ {ℓ} {N : Type ℓ} where
  attach_all-IsShared :
      (n : ℕ) (b : Broadcaster) (s : RadioService N) (ls : List ℕ)
      → IsShared n b s
      → IsShared n (b ++ repeat_each n ls) (attach_all s ls)
        × ((attach_all s ls).networks ≡ s.networks)
  unfolding attach_listener
  attach_all-IsShared n b s [] h = (rw (append-nil b) h, refl)
  attach_all-IsShared n b s (l ∷ ls) h = rw (← append_assoc b (replicate n l) (repeat_each n ls)) (
      attach_all-IsShared n (b ++ replicate n l) (attach_listener s (some l)) ls (record {
        one = rw (h.one, h.pointers) (attach_each-replicate n b l);
        pointers = h.pointers;
      }))

on_receive_all :
    (alive : ℕ → Bool) (b : Broadcaster) (f : Frame)
    → ((l : ℕ) → alive l ≡ true)
    → on_receive alive b f ≡ map (λ l. (l, f)) b
unfolding on_receive
on_receive_all alive [] f h = refl
on_receive_all alive (l ∷ b) f h = rw (h l) (ap (λ r. (l, f) ∷ r) (on_receive_all alive b f h))

get_or-replicate : (n i : ℕ) → get_or {A = ℕ} (replicate n 0) i 0 ≡ 0
get_or-replicate zero i = refl
get_or-replicate (suc n) zero = refl
get_or-replicate (suc n) (suc i) = get_or-replicate n i

frame_received_at {ℓ} :
    {R N : Type ℓ} (net : NetworkPort R N) (alive : ℕ → Bool) (s : RadioService N) (m : ℕ)
    (f : Frame) (x : N) (b : Broadcaster)
    → get_elem? s.networks m ≡ some x
    → net.receiver x ≡ 0
    → s.heap ≡ b ∷ []
    → frame_received net alive s m f ≡ on_receive alive b f
unfolding frame_received
frame_received_at net alive s m f x b e r one = rw (e, frame_received) (rw (r, one))

module _ {ℓ} {R N : Type ℓ} (net : NetworkPort R N) (keeps : KeepsReceiver net) where
  -- The receiver of each network made in the loop of the constructor.
  receiver_of :
      (config : MeshConfig) (n i : ℕ) (radios : List R) (m : ℕ) (x : N)
      → get_elem? (start_all net (create_networks net config i radios (replicate n 0))) m ≡ some x
      → net.receiver x ≡ 0
  unfolding create_networks start_all
  receiver_of config n i [] m x h = cc
  receiver_of config n i (r ∷ radios) zero x h =
      ap net.receiver (sym (some-injective _ _ h))
      ∙ keeps.started _
      ∙ keeps.created _ r _
      ∙ get_or-replicate n i
  receiver_of config n i (r ∷ radios) (suc m) x h = receiver_of config n (i + 1) radios m x h

  -- After any listeners have been attached, and as long as all of them live, a frame from any
  -- module is passed to each listener once for every radio that there is: the modules share one
  -- broadcaster, and attaching goes to it through each of the pointers.
  pub frame_received-repeat_each :
      (config : MeshConfig) (radios : List R) (ls : List ℕ) (alive : ℕ → Bool) (m : ℕ) (x : N)
      (f : Frame)
      → ((l : ℕ) → alive l ≡ true)
      → get_elem? (radio_service net config radios).networks m ≡ some x
      → frame_received net alive (attach_all (radio_service net config radios) ls) m f
        ≡ map (λ l. (l, f)) (repeat_each (length radios) ls)
  unfolding radio_service
  frame_received-repeat_each config radios ls alive m x f h e =
      let s = radio_service net config radios in
      let shared =
        attach_all-IsShared (length radios) [] s ls (record { one = refl; pointers = refl }) in
      let receiver = receiver_of config (length radios) 0 radios m x e in
      frame_received_at net alive (attach_all s ls) m f x (repeat_each (length radios) ls)
        (ap (λ ns. get_elem? ns m) shared.1 ∙ e) receiver shared.0.one
      ∙ on_receive_all alive (repeat_each (length radios) ls) f h
