-- ===== src/Mqtt/Packets.antt =====
-- The packets that the two MQTT clients write: `connectPacket`, `subscribePacket` and
-- `publishPacket` of server/internal/mqttdynsec/client.go and server/internal/push/mqtt.go.
use Prim.Native.Nat.{bit_or, bit_and}
use xmdm.Common.{ℕ, ◌+◌, ◌*◌, ◌/◌, ◌%◌, [], ◌∷◌, ◌++◌, ltb, ◌==◌, if◌then◌else◌, length}
use xmdm.Common.Int.{pos}
use xmdm.Mqtt.{Bytes, encode_remaining_length, encode_string}

-- `Config` and `MQTTConfig`; the keep-alive is in nanoseconds
pub record Config : Type 0 where
  pub address : Bytes
  pub client_id : Bytes
  pub username : Bytes
  pub password : Bytes
  pub keep_alive : ℕ
  pub dial_timeout : ℕ

-- A fixed header, the length of what follows, and what follows.
unfoldable pub frame : ℕ → Bytes → Bytes
frame header body = (header ∷ encode_remaining_length (pos (length body))) ++ body

abbrev pub present : Bytes → Bytes → Bytes
present [] whole = []
present (b ∷ bs) whole = whole

unfoldable pub connect_flags : Config → ℕ
connect_flags cfg =
    bit_or (bit_or 0x02 (if length cfg.username == 0 then 0 else 0x80))
      (if length cfg.password == 0 then 0 else 0x40)

-- `connectPacket`: protocol name and level, flags, keep-alive in seconds, then the credentials
unfoldable pub connect_packet : Config → Bytes
unfolding connect_flags frame
connect_packet cfg =
    let seconds = cfg.keep_alive / 1_000_000_000 % 65536 in
    let body =
      encode_string (b'M' ∷ b'Q' ∷ b'T' ∷ b'T' ∷ [])
      ++ 4 ∷ connect_flags cfg ∷ seconds / 256 ∷ seconds % 256 ∷ [] in
    let payload =
      encode_string cfg.client_id
      ++ (present cfg.username (encode_string cfg.username)
          ++ present cfg.password (encode_string cfg.password)) in
    frame 0x10 (body ++ payload)

unfoldable pub subscribe_packet : Bytes → ℕ → Bytes
unfolding frame
subscribe_packet topic packet_id =
    frame 0x82 ((packet_id / 256) ∷ (packet_id % 256) ∷ encode_string topic ++ 0 ∷ [])

-- `publishPacket` of mqttdynsec, always at quality of service 0
unfoldable pub publish_packet : Bytes → Bytes → Bytes
unfolding frame
publish_packet topic payload = frame 0x30 (encode_string topic ++ payload)

-- `publishPacket` of push, with the quality of service and the packet's number
unfoldable pub publish_packet_qos : Bytes → Bytes → ℕ → ℕ → Bytes
unfolding frame
publish_packet_qos topic payload qos packet_id = frame (bit_or 0x30 (bit_and qos 0x03 * 2)) (
    encode_string topic
    ++ ((if ltb 0 qos then (packet_id / 256) ∷ (packet_id % 256) ∷ [] else []) ++ payload))

-- `readPacketID`
unfoldable pub read_packet_id : Bytes → ℕ
read_packet_id [] = 0
read_packet_id (hi ∷ []) = 0
read_packet_id (hi ∷ lo ∷ rest) = hi * 256 + lo
