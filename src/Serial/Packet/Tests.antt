-- ===== src/Serial/Packet/Tests.antt =====
-- A run of the packet code, and instances of its theorems.
use kaonic_comm.Shared.{ℕ, ◌≡◌, refl, ◌↔◌, ◌≢◌, List, [], ◌∷◌, ◌++◌}
use kaonic_comm.Messages.{ReceiveResponse}
use kaonic_comm.Serial.Hdlc.{escape, unescape}
use kaonic_comm.Serial.Packet.{receive, error_payload, decode, encode}
use kaonic_comm.Serial.Packet.RoundTrip.{decode-unescape-escape-encode, decode-eq, IsDecoded}
use kaonic_comm.Serial.Packet.Sample.{field_codec, field_codec-IsCodec}

abbrev response : ReceiveResponse
response = record {
  module_index = 1;
  frame = record { words = 0x7e ∷ 0x7d ∷ []; size = 8 };
  rssi = 0;
  latency = 3;
}

-- Whatever lay on the stack.
abbrev stack_bytes : List ℕ
stack_bytes = 0x7e ∷ 5 ∷ 6 ∷ []

encode-response :
    encode field_codec stack_bytes (receive response)
    ≡ 0x22 ∷ 0 ∷ 3 ∷ 0 ∷ 0x7e ∷ 5 ∷ 6 ∷ 0 ∷ 0 ∷ 0 ∷ 0 ∷ 0 ∷ 0 ∷ 0 ∷ 0 ∷ 0 ∷ 0 ∷ 0 ∷ 0 ∷ 0 ∷ 1 ∷ 0
      ∷ 3 ∷ 8 ∷ 0x7e ∷ 0x7d ∷ []
unfolding encode
encode-response = refl

decode-unescape-escape-encode_example :
    decode field_codec
      (unescape (escape (encode field_codec stack_bytes (receive response)) ++ 9 ∷ []))
    ≡ receive response
decode-unescape-escape-encode_example =
    decode-unescape-escape-encode field_codec stack_bytes field_codec-IsCodec (receive response)
      (9 ∷ [])

receive-ne-error : receive response ≢ error_payload
receive-ne-error h = cc

decode-eq_example :
    (decode field_codec (0x22 ∷ 0 ∷ 3 ∷ 0 ∷ []) ≡ receive response)
    ↔ IsDecoded field_codec (0x22 ∷ 0 ∷ 3 ∷ 0 ∷ []) (receive response)
decode-eq_example =
    decode-eq field_codec (0x22 ∷ 0 ∷ 3 ∷ 0 ∷ []) (receive response) receive-ne-error
