-- ===== src/Mqtt/Responses/Session.antt =====
-- A whole session of `runCommand`: it always ends with a Go outcome, and with a broker that accepts
-- the connection its outcome is what the first response says.
use xmdm.Common.{
  ℕ, suc, ◌<◌, ◌^◌, ◌≡◌, ◌≢◌, List, ◌++◌, true, length, arith, Option, String, inl, inr, All,
}
use xmdm.Mqtt.{Wire-cases, Bytes, ok, encode_string, read_packet}
use xmdm.Mqtt.Framing.{read_packet-frame}
use xmdm.Mqtt.Packets.{Config, frame, publish_packet, connect_packet, subscribe_packet}
use xmdm.Mqtt.Responses.{
  Response, failed, stuck, Network, connack_accepts, await, run_command, control_response_topic,
  control_request_topic,
}
use xmdm.Mqtt.Responses.Opening.{answer}
use xmdm.Mqtt.Responses.Waiting.{await-ne-stuck, await-answer, Unrelated, stream, length-stream}

module _ (parse : Bytes → Option (List Response)) (cfg : Config) (net : Network) (payload : Bytes)
    (tolerated : List String) where
  -- Whatever the parser, the configuration, the network, the command and the tolerated errors: a
  -- session of `runCommand` never runs out of the rounds that its receive loop is given.
  pub run_command-ne-stuck : run_command parse cfg net payload tolerated ≢ failed stuck
  unfolding run_command
  run_command-ne-stuck h = elim (Wire-cases (read_packet net.incoming)) [
    | inl (e, broken) ↦ ground arith
    | inr (p, first) ↦ elim (Wire-cases (read_packet p.1)) [
      | inl (e, broken) ↦ ground arith
      | inr (q, second) ↦
          ground (arith, await-ne-stuck parse tolerated (suc (length q.1)) q.1 (omega arith))
    ]
  ]

  -- A broker that accepts: every write succeeds, the CONNACK accepts, and between the SUBACK and a
  -- publication of `reply` on the response topic there are only packets of other types.
  pub record IsAccepted (connack suback : Bytes) (noise : List (ℕ × Bytes)) (reply rest : Bytes)
      : Type 0 where
    pub dialled : net.dials ≡ true
    pub timed : net.takes_deadline ≡ true
    pub written : (packet : Bytes) → net.writes packet ≡ true
    pub accepts : connack_accepts (frame 0x20 connack) ≡ true
    pub connack_fits : length connack < 128 ^ 4
    pub suback_fits : length suback < 128 ^ 4
    pub noise_fits : All Unrelated noise
    pub reply_fits : length (encode_string control_response_topic ++ reply) < 128 ^ 4
    pub received :
        net.incoming
        ≡ frame 0x20 connack
          ++ (frame 0x90 suback
              ++ stream noise (publish_packet control_response_topic reply ++ rest))

  -- With a broker that accepts, `runCommand` returns what the first response of the reply says,
  -- whatever packets of other types came before it and whatever bytes come behind it.
  pub run_command-answer :
      (connack suback : Bytes) (noise : List (ℕ × Bytes)) (reply rest : Bytes)
      → IsAccepted connack suback noise reply rest
      → run_command parse cfg net payload tolerated ≡ answer parse tolerated reply
  unfolding run_command
  run_command-answer connack suback noise reply rest a =
      let r₂ = stream noise (publish_packet control_response_topic reply ++ rest) in
      let first : read_packet net.incoming ≡ ok (frame 0x20 connack, frame 0x90 suback ++ r₂) =
        rw a.received (read_packet-frame 0x20 connack (frame 0x90 suback ++ r₂) a.connack_fits) in
      let second : read_packet (frame 0x90 suback ++ r₂) ≡ ok (frame 0x90 suback, r₂) =
        read_packet-frame 0x90 suback r₂ a.suback_fits in
      let third : await parse (suc (length r₂)) tolerated r₂ ≡ answer parse tolerated reply =
        await-answer parse tolerated noise reply rest (suc (length r₂)) a.noise_fits a.reply_fits (
          omega
            (arith, length-stream noise (publish_packet control_response_topic reply ++ rest))) in
      ground (
        arith,
        first,
        second,
        third,
        a.dialled,
        a.timed,
        a.accepts,
        a.written (connect_packet cfg),
        a.written (subscribe_packet control_response_topic 1),
        a.written (publish_packet control_request_topic payload),
      )
