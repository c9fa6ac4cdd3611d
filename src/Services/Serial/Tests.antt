-- ===== src/Services/Serial/Tests.antt =====
-- Instances of the theorems on the serial service, over a radio service that logs its calls.
use kaonic_comm.Shared.{
  ℕ, ◌+◌, ◌≡◌, refl, false, some, suc, pos, ◌==◌, if◌then◌else◌, List, [], ◌∷◌, map, arith,
}
use kaonic_comm.Failure.{ok}
use kaonic_comm.Messages.{FrameMessage}
use kaonic_comm.Serial.Packet.{error_payload}
use kaonic_comm.Serial.Packet.Sample.{field_codec, field_codec-IsCodec}
use kaonic_comm.Services.RadioPort.{RadioPort}
use kaonic_comm.Services.Serial.{SerialService, Round}
use kaonic_comm.Services.Serial.Monitor.{IsIdle}
use kaonic_comm.Services.Serial.Polling.{poll_all, poll_all-IsIdle}
use kaonic_comm.Serial.Port.Transfer.{Io}
use kaonic_comm.Services.Serial.Session.{
  Event, polled, heard, handle_all, opened, carried, handle_all-carried,
}

-- The modules that were called.
abbrev log_port : RadioPort (List ℕ)
log_port = record { configure = λ log m c. (ok, m ∷ log); transmit = λ log m f. (ok, m ∷ log) }

abbrev old_message : FrameMessage
old_message = record { words = 1 ∷ 2 ∷ []; size = 8 }

abbrev service : SerialService (List ℕ)
service = record {
  radio = [];
  is_active = false;
  threads = 0;
  hdlc_processor = record { max_hdlc_size = 10240; in_frame = false };
  hdlc_buffer = [];
  unescaped_buffer = [];
  escaped_buffer = [];
  tx_payload = error_payload;
  rx_response = record { module_index = 0; frame = old_message; rssi = 0; latency = 0 };
  rx_protobuf = [];
  frame = [];
}

abbrev sum_bytes : List ℕ → ℕ
sum_bytes [] = 0
sum_bytes (b ∷ bs) = b + sum_bytes bs

abbrev byte_read : ℕ → Round
byte_read b = record { stored = some b; crc_count = 4; expected_crc = 0x7e }

-- Each read brings the next of these bytes, and any flag would be followed by its checksum.
abbrev endless_flags : Io ℕ
endless_flags = record {
  select = λ w fd micros. (pos 1, w);
  read = λ w fd size.
      if size == 1 then (pos 1, 0x7e ∷ [], suc w) else (pos 4, 0x7e ∷ 0 ∷ 0 ∷ 0 ∷ [], suc w);
  write = λ w fd bytes. (pos 0, w);
  flush_output = λ w fd. w;
  close = λ w fd. w;
}

poll_all-IsIdle_example :
    IsIdle service
      (poll_all log_port field_codec sum_bytes 32 endless_flags
        (pos 3)
        5
        (record { service = service; byte = 0; system = 0 })).service
poll_all-IsIdle_example =
    poll_all-IsIdle log_port field_codec sum_bytes 32 endless_flags (pos 3) 5 service 0 refl

abbrev two_heard : List Event
two_heard =
    heard [] (5 ∷ 6 ∷ [])
    ∷ polled (byte_read 0x7e)
    ∷ heard [] (7 ∷ [])
    ∷ polled (byte_read 0x7e)
    ∷ []

handle_all-carried_example :
    let v = handle_all log_port field_codec sum_bytes (opened []) two_heard in
    (v.service.radio ≡ [])
    × (map (carried field_codec) v.written ≡ some (5 ∷ 6 ∷ []) ∷ some (7 ∷ []) ∷ [])
handle_all-carried_example =
    handle_all-carried log_port field_codec sum_bytes [] two_heard field_codec-IsCodec (omega arith)
