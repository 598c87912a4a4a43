-- ===== src/Mqtt/Tests.antt =====
-- Packets and sessions at given bytes.
use xmdm.Common.{
  ℕ, ◌+◌, ◌≡◌, ◌≢◌, ◌↔◌, refl, List, [], ◌∷◌, ◌++◌, true, Option, none, some, length, codes, arith,
}
use xmdm.Common.Int.{pos}
use xmdm.Mqtt.{
  Bytes, ok, encode_remaining_length, decode_remaining_length, encode_string, read_packet,
  read_mqtt_string, read_remaining_length, length_digits, decode_loop, read_length_loop, read_full,
}
use xmdm.Mqtt.Length.{decode-encode_remaining_length}
use xmdm.Mqtt.Framing.{read_packet-frame, read-encode_string}
use xmdm.Mqtt.Packets.{Config, frame, publish_packet}
use xmdm.Mqtt.Responses.{
  Response, failed, stuck, Network, run_command, control_response_topic, connack_accepts,
}
use xmdm.Mqtt.Responses.Opening.{answer}
use xmdm.Mqtt.Responses.Session.{IsAccepted, run_command-ne-stuck, run_command-answer}
use xmdm.Mqtt.Publish.{Published, publish_qos1, IsDelivered, publish_qos1-done_iff}

encode_321 : encode_remaining_length (pos 321) ≡ 0xC1 ∷ 2 ∷ []
unfolding encode_remaining_length length_digits
encode_321 = refl

decode-encode_remaining_length_example :
    decode_remaining_length (encode_remaining_length (pos 321)) ≡ 321
decode-encode_remaining_length_example = decode-encode_remaining_length 321

abbrev hello : Bytes
hello = b'h' ∷ b'i' ∷ []

read_packet-frame_example : read_packet (frame 0x30 hello ++ 7 ∷ []) ≡ ok (frame 0x30 hello, 7 ∷ [])
read_packet-frame_example = read_packet-frame 0x30 hello (7 ∷ []) (omega arith)

abbrev two_bytes : Bytes
two_bytes = 0xD0 ∷ 0x00 ∷ 0x30 ∷ []

abbrev left_over : Bytes
left_over = 0x30 ∷ []

abbrev before : Bytes
before = 9 ∷ []

read-two_bytes : read_packet two_bytes ≡ ok (0xD0 ∷ 0x00 ∷ [], 0x30 ∷ [])
unfolding read_packet read_full read_remaining_length read_length_loop decode_remaining_length
    decode_loop
read-two_bytes = refl

read-encode_string_example :
    read_mqtt_string (before ++ (encode_string hello ++ 8 ∷ [])) (length before)
    ≡ ok (hello, length before + 2 + length hello)
read-encode_string_example = read-encode_string before hello (8 ∷ []) (omega arith)

abbrev config : Config
config = record {
  address = codes "broker:1883";
  client_id = codes "dynsec";
  username = codes "admin";
  password = codes "pw";
  keep_alive = 30_000_000_000;
  dial_timeout = 5_000_000_000;
}

-- A parser that takes the text `ok` for a response without an error.
abbrev parse_ok : Bytes → Option (List Response)
parse_ok [] = none
parse_ok (b ∷ bs) = some (record { command = "createRole"; error = "" } ∷ [])

abbrev pong : ℕ × Bytes
pong = (0xD0, [])

abbrev session : Network
session = record {
  dials = true;
  takes_deadline = true;
  writes = λ packet. true;
  incoming =
      frame 0x20 (0 ∷ 0 ∷ [])
      ++ (frame 0x90 (0 ∷ 1 ∷ 0 ∷ [])
          ++ (frame 0xD0 [] ++ (publish_packet control_response_topic (codes "ok") ++ [])));
}

session-IsAccepted :
    IsAccepted parse_ok config session
      (codes "{}")
      []
      (0 ∷ 0 ∷ [])
      (0 ∷ 1 ∷ 0 ∷ [])
      (pong ∷ [])
      (codes "ok")
      []
unfolding connack_accepts frame encode_remaining_length length_digits encode_string
session-IsAccepted = record {
  dialled = refl;
  timed = refl;
  written = λ packet. refl;
  accepts = refl;
  connack_fits = omega arith;
  suback_fits = omega arith;
  noise_fits = ((λ h. ground (arith, h), omega arith), tt);
  reply_fits = omega arith;
  received = refl;
}

run_command-answer_example :
    run_command parse_ok config session (codes "{}") [] ≡ answer parse_ok [] (codes "ok")
run_command-answer_example =
    run_command-answer parse_ok config session (codes "{}") [] (0 ∷ 0 ∷ []) (0 ∷ 1 ∷ 0 ∷ [])
      (pong ∷ []) (codes "ok") [] session-IsAccepted

run_command-ne-stuck_example : run_command parse_ok config session (codes "{}") [] ≢ failed stuck
run_command-ne-stuck_example = run_command-ne-stuck parse_ok config session (codes "{}") []

abbrev busy_broker : Network
busy_broker = record {
  dials = true;
  takes_deadline = true;
  writes = λ packet. true;
  incoming = frame 0x20 (0 ∷ 0 ∷ []) ++ frame 0x40 (0 ∷ 1 ∷ []);
}

publish_qos1-done_iff_example :
    ((publish_qos1 config busy_broker true (codes "devices/1/commands") hello).0 ≡ Published.done)
    ↔ IsDelivered config busy_broker true (codes "devices/1/commands") hello
publish_qos1-done_iff_example =
    publish_qos1-done_iff config busy_broker true (codes "devices/1/commands") hello
