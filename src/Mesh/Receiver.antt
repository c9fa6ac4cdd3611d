-- ===== src/Mesh/Receiver.antt =====
-- kaonic/src/comm/mesh/network_receiver.cpp: one receiver that passes frames on to others. A
-- listener is a number; a broadcaster holds weak references, so whether a listener is still there
-- is asked at each frame.
use kaonic_comm.Shared.{ℕ, Bool, Option, none, some, List, [], ◌∷◌, ◌++◌, if◌then◌else◌}
use kaonic_comm.Radio.{Frame}

-- `_listeners` of a `network_broadcast_receiver`
abbrev pub Broadcaster : Type 0
Broadcaster = List ℕ

abbrev pub attach_listener : Broadcaster → Option ℕ → Broadcaster
attach_listener b none = b
attach_listener b (some listener) = b ++ listener ∷ []

-- `network_broadcast_receiver::on_receive`: the calls of `on_receive` that it makes, in order.
unfoldable pub on_receive : (ℕ → Bool) → Broadcaster → Frame → List (ℕ × Frame)
on_receive alive [] frame = []
on_receive alive (listener ∷ b) frame =
    let rest = on_receive alive b frame in if alive listener then (listener, frame) ∷ rest else rest
