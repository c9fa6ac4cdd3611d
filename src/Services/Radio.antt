-- ===== src/Services/Radio.antt =====
-- kaonic/src/comm/services/radio_service.cpp: the networks by module index, and the broadcasters
-- that their frames go to. The network class is a parameter, `NetworkPort`.
pub mod Dispatch
pub mod Listeners
mod Tests
use kaonic_comm.Shared.{
  ℕ, zero, suc, ◌+◌, Option, none, some, List, [], ◌∷◌, ◌++◌, length, get_elem?, get_or, set,
  replicate, leb, if◌then◌else◌, Bool,
}
use kaonic_comm.Failure.{Error, ok, invalid_arg}
use kaonic_comm.Radio.{Frame, RadioConfig}
use kaonic_comm.Mesh.Receiver.{Broadcaster, on_receive}
use kaonic_comm.Mesh.Receiver
use kaonic_comm.Services.RadioPort.{RadioPort}

-- `mesh::config`, with the durations in milliseconds.
pub record MeshConfig : Type 0 where
  pub packet_pattern : ℕ
  pub id_base : ℕ
  pub slot_duration : ℕ
  pub gap_duration : ℕ
  pub beacon_interval : ℕ

-- What the service uses of `radio_network`, for radios `R`; a receiver is the address of a
-- broadcaster.
pub record NetworkPort {ℓ} (R N : Type ℓ) : Type ℓ where
  pub create : MeshConfig → R → ℕ → N
  pub receiver : N → ℕ
  pub start : N → Error × N
  pub configure : N → RadioConfig → Error × N
  pub transmit : N → Frame → Error × N

-- `heap` holds the broadcasters at their addresses; `broadcasters` are the shared pointers.
pub record RadioService {ℓ} (N : Type ℓ) : Type ℓ where
  pub heap : List Broadcaster
  pub broadcasters : List ℕ
  pub networks : List N

module _ {ℓ} {R N : Type ℓ} (net : NetworkPort R N) where
  -- The loop of the constructor from index `i` on.
  unfoldable pub create_networks : MeshConfig → ℕ → List R → List ℕ → List N
  create_networks config i [] broadcasters = []
  create_networks config i (r ∷ radios) broadcasters =
      net.create (record config { id_base = i + 1 }) r (get_or broadcasters i 0)
      ∷ create_networks config (i + 1) radios broadcasters

  unfoldable pub start_all : List N → List N
  start_all [] = []
  start_all (n ∷ networks) = (net.start n).1 ∷ start_all networks

  -- `_radio_broadcasters { n, make_shared() }` makes one broadcaster and `n` pointers to it.
  unfoldable pub radio_service : MeshConfig → List R → RadioService N
  unfolding create_networks start_all
  radio_service config radios =
      let broadcasters : List ℕ = replicate (length radios) 0 in
      record {
        heap = [] ∷ [];
        broadcasters = broadcasters;
        networks = start_all (create_networks config 0 radios broadcasters);
      }

  -- The guard keeps the index in range. Behind it an index out of range has no defined result in the
  -- code, and no error: it is answered `ok` here.
  unfoldable pub configure : RadioService N → ℕ → RadioConfig → Error × RadioService N
  configure s m config =
      if leb (length s.networks) m then (invalid_arg, s) else elim (get_elem? s.networks m) [
        | none ↦ (ok, s)
        | some n ↦
            let (err, n') = net.configure n config in
            (err, record s { networks = set s.networks m n' })
      ]

  unfoldable pub transmit : RadioService N → ℕ → Frame → Error × RadioService N
  transmit s m frame =
      if leb (length s.networks) m then (invalid_arg, s) else elim (get_elem? s.networks m) [
        | none ↦ (ok, s)
        | some n ↦
            let (err, n') = net.transmit n frame in
            (err, record s { networks = set s.networks m n' })
      ]

  -- The service as the other two use it.
  abbrev pub radio_port : RadioPort (RadioService N)
  radio_port = record { configure = configure; transmit = transmit }

  -- A frame that the network of a module hands to its receiver: the calls of the listeners.
  unfoldable pub frame_received : (ℕ → Bool) → RadioService N → ℕ → Frame → List (ℕ × Frame)
  frame_received alive s m frame = elim (get_elem? s.networks m) [
    | none ↦ []
    | some n ↦ on_receive alive (get_or s.heap (net.receiver n) []) frame
  ]

-- The loop of `attach_listener` over the pointers.
unfoldable pub attach_each : List ℕ → List Broadcaster → ℕ → List Broadcaster
attach_each [] heap listener = heap
attach_each (b ∷ broadcasters) heap listener =
    attach_each broadcasters
      (set heap b (Receiver.attach_listener (get_or heap b []) (some listener))) listener

module _ {ℓ} {N : Type ℓ} where
  unfoldable pub attach_listener : RadioService N → Option ℕ → RadioService N
  unfolding attach_each
  attach_listener s none = s
  attach_listener s (some listener) = record s { heap = attach_each s.broadcasters s.heap listener }
