-- ===== src/Mqtt/Responses.antt =====
-- `runCommand` of server/internal/mqttdynsec/client.go: one session with the broker for one command
-- of the dynamic-security plugin. The connection is the bytes that the broker will send, the
-- packets written so far, and which of the next writes fail. JSON is the parameter `parse`.
pub mod Opening
pub mod Waiting
pub mod Session
use Prim.Native.Nat.{bit_and}
use xmdm.Common.{
  ℕ, zero, suc, ◌+◌, List, [], ◌∷◌, ◌++◌, Bool, true, false, not, ◌||◌, ◌&&◌, Option, none, some,
  String, map, ltb, ◌==◌, if◌then◌else◌, length, drop, any_of, codes, codes_eq, codes_contain,
  lower_code, str_eq,
}
use xmdm.Mqtt.{
  Bytes, Wire, ok, err, WireError, read_packet, read_mqtt_string, remaining_length_bytes, byte_at,
}
use xmdm.Mqtt.Packets.{Config, connect_packet, subscribe_packet, publish_packet}

abbrev pub control_request_topic : Bytes
control_request_topic = codes "$CONTROL/dynamic-security/v1"

abbrev pub control_response_topic : Bytes
control_response_topic = codes "$CONTROL/dynamic-security/v1/response"

-- One entry of `dynsecResponse.Responses`; no error is the empty text.
pub record Response : Type 0 where
  pub command : String
  pub error : String

-- `stuck` is no Go error: the rounds of the receive loop ran out.
pub data RunError : Type 0 where
  dial_failed deadline_failed write_failed connection_rejected bad_json missing_response : RunError
  wire_failed : WireError → RunError
  command_failed : String → String → RunError
  stuck : RunError

pub data Outcome : Type 0 where
  done : Outcome
  failed : RunError → Outcome

-- `containsAny`
unfoldable pub contains_any : String → List String → Bool
contains_any value needles =
    any_of
      (λ needle.
        not (str_eq needle "")
        && codes_contain (map lower_code (codes value)) (map lower_code (codes needle)))
      needles

-- What the first response of a message says.
unfoldable pub settle : List String → List Response → Outcome
settle tolerated [] = failed missing_response
settle tolerated (r ∷ rs) =
    if str_eq r.error ""
    then done
    else if contains_any r.error tolerated
    then done
    else failed (command_failed r.command r.error)

module _ (parse : Bytes → Option (List Response)) where
  -- A publication on the response topic ends the loop; `none` is `continue`.
  unfoldable pub inspect : List String → Bytes → Option Outcome
  unfolding settle
  inspect tolerated packet =
      if not (bit_and (byte_at packet 0) 0xF0 == 0x30)
      then none
      else elim (read_mqtt_string packet (1 + remaining_length_bytes (drop 1 packet))) [
        | err e ↦ some (failed (wire_failed e))
        | ok (topic, next) ↦
            if codes_eq topic control_response_topic
            then elim (parse (drop next packet)) [
              | none ↦ some (failed bad_json)
              | some rs ↦ some (settle tolerated rs)
            ]
            else none
      ]

  -- The receive loop, over the bytes that the broker sends.
  unfoldable pub await : ℕ → List String → Bytes → Outcome
  await zero tolerated incoming = failed stuck
  await (suc rounds) tolerated incoming = elim (read_packet incoming) [
    | err e ↦ failed (wire_failed e)
    | ok (packet, rest) ↦ elim (inspect tolerated packet) [
      | some outcome ↦ outcome
      | none ↦ await rounds tolerated rest
    ]
  ]

-- What the network does in one session.
pub record Network : Type 0 where
  pub dials : Bool
  pub takes_deadline : Bool
  pub writes : Bytes → Bool
  pub incoming : Bytes

-- The four bytes of a CONNACK that accepts: type 2, length 2, flags, return code 0.
unfoldable pub connack_accepts : Bytes → Bool
connack_accepts packet =
    not (ltb (length packet) 4) && byte_at packet 0 == 0x20 && byte_at packet 3 == 0

module _ (parse : Bytes → Option (List Response)) where
  -- `runCommand`, with the JSON text of the command
  unfoldable pub run_command : Config → Network → Bytes → List String → Outcome
  run_command cfg net payload tolerated =
      if not net.dials
      then failed dial_failed
      else if not net.takes_deadline
      then failed deadline_failed
      else if not (net.writes (connect_packet cfg))
      then failed write_failed
      else elim (read_packet net.incoming) [
        | err e ↦ failed (wire_failed e)
        | ok (connack, r₁) ↦
            if not (connack_accepts connack)
            then failed connection_rejected
            else if not (net.writes (subscribe_packet control_response_topic 1))
            then failed write_failed
            else elim (read_packet r₁) [
              | err e ↦ failed (wire_failed e)
              | ok (suback, r₂) ↦
                  if not (net.writes (publish_packet control_request_topic payload))
                  then failed write_failed
                  else await parse (suc (length r₂)) tolerated r₂
            ]
      ]
