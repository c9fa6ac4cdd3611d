-- ===== src/Serial/Hdlc/Tests.antt =====
-- Runs of the framing code, and instances of its theorems.
use kaonic_comm.Shared.{ℕ, ◌≤◌, ◌≡◌, refl, true, List, [], ◌∷◌, ◌++◌, arith, length}
use kaonic_comm.Serial.Hdlc.{Processor, processor, escape, unescape, update, update_all}
use kaonic_comm.Serial.Hdlc.RoundTrip.{unescape-escape}
use kaonic_comm.Serial.Hdlc.Detector.{update-bounded}

-- The buffer of `test_special_hdlc_flags` in tests/hdlc/src/main.cpp.
abbrev special_bytes : List ℕ
special_bytes = 1 ∷ 2 ∷ 3 ∷ 4 ∷ 0x7e ∷ 0x7d ∷ 0x20 ∷ 8 ∷ 9 ∷ 10 ∷ []

escape_special :
    escape special_bytes
    ≡ 0x7e ∷ 1 ∷ 2 ∷ 3 ∷ 4 ∷ 0x7d ∷ 0x5e ∷ 0x7d ∷ 0x5d ∷ 0x20 ∷ 8 ∷ 9 ∷ 10 ∷ 0x7e ∷ []
unfolding escape
escape_special = refl

abbrev inside : Processor
inside = record { max_hdlc_size = 8; in_frame = true }

update_all_two_frames :
    (update_all (processor 8) [] (0x7e ∷ 1 ∷ 2 ∷ 0x7e ∷ [])).2 ≡ (0x7e ∷ []) ∷ (0x7e ∷ []) ∷ []
unfolding update_all update processor
update_all_two_frames = refl

unescape-escape_example : unescape (escape special_bytes ++ 5 ∷ []) ≡ special_bytes
unescape-escape_example = unescape-escape special_bytes (5 ∷ [])

update-bounded_example : length (update inside 5 (1 ∷ 2 ∷ [])).1 ≤ 8
update-bounded_example = update-bounded inside 5 (1 ∷ 2 ∷ []) (omega arith) (omega arith)
