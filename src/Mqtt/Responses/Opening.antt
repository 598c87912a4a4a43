-- ===== src/Mqtt/Responses/Opening.antt =====
-- A publication is taken apart into the topic and the payload that it was made of.
use xmdm.Common.{
  ℕ, suc, ◌+◌, ◌<◌, ◌≡◌, refl, ap, sym, ◌∙◌, List, ◌∷◌, ◌++◌, false, length, append_assoc, arith,
  drop, length-append, drop_append_left, Option, none, some, String, codes_eq,
}
use xmdm.Common.Int.{pos}
use xmdm.Mqtt.{
  Bytes, ok, encode_remaining_length, encode_string, remaining_length_bytes, read_mqtt_string,
  byte_at,
}
use xmdm.Mqtt.Length.{remaining_length_bytes-encode}
use xmdm.Mqtt.Framing.{read-encode_string}
use xmdm.Mqtt.Packets.{publish_packet}
use xmdm.Mqtt.Responses.{
  Response, Outcome, bad_json, failed, settle, inspect, control_response_topic,
}

-- The place behind the topic of a publication.
abbrev pub payload_offset : Bytes → Bytes → ℕ
payload_offset topic payload =
    suc (length (encode_remaining_length (pos (length (encode_string topic ++ payload)))))
    + 2
    + length topic

module _ (topic payload : Bytes) where
  abbrev opening : Bytes
  opening = 0x30 ∷ encode_remaining_length (pos (length (encode_string topic ++ payload)))

  -- The offset that `runCommand` computes is the place of the topic.
  topic_offset : 1 + remaining_length_bytes (drop 1 (publish_packet topic payload)) ≡ length opening
  unfolding publish_packet
  topic_offset =
      let skip =
        remaining_length_bytes-encode (length (encode_string topic ++ payload))
          (encode_string topic ++ payload) in
      omega (arith, skip)

  pub read-publish_packet :
      length topic < 65536
      → read_mqtt_string
          (publish_packet topic payload)
          (1 + remaining_length_bytes (drop 1 (publish_packet topic payload)))
        ≡ ok (topic, payload_offset topic payload)
  read-publish_packet h =
      rw topic_offset (unfold publish_packet in read-encode_string opening topic payload h)

  length-opening : payload_offset topic payload ≡ length (opening ++ encode_string topic)
  unfolding encode_string
  length-opening = omega (arith, length-append opening (encode_string topic))

  pub drop-publish_packet :
      drop (payload_offset topic payload) (publish_packet topic payload) ≡ payload
  unfolding publish_packet
  drop-publish_packet =
      ap (λ n. drop n (opening ++ (encode_string topic ++ payload))) length-opening
      ∙ (ap (drop (length (opening ++ encode_string topic)))
            (sym (append_assoc opening (encode_string topic) payload))
          ∙ drop_append_left (opening ++ encode_string topic) payload)

first_byte : (topic payload : Bytes) → byte_at (publish_packet topic payload) 0 ≡ 0x30
unfolding publish_packet
first_byte topic payload = refl

-- What the answer to a response's payload is.
abbrev pub answer : (Bytes → Option (List Response)) → List String → Bytes → Outcome
answer parse tolerated payload = elim (parse payload) [
  | none ↦ failed bad_json
  | some rs ↦ settle tolerated rs
]

module _ (parse : Bytes → Option (List Response)) (tolerated : List String) (payload : Bytes) where
  pub inspect-response :
      inspect parse tolerated (publish_packet control_response_topic payload)
      ≡ some (answer parse tolerated payload)
  unfolding inspect
  inspect-response = rw (read-publish_packet control_response_topic payload (omega arith)) (
      rw
        (
          first_byte control_response_topic payload,
          drop-publish_packet control_response_topic payload,
        )
        (ground arith))

  pub inspect-other_topic :
      (topic : Bytes)
      → length topic < 65536
      → codes_eq topic control_response_topic ≡ false
      → inspect parse tolerated (publish_packet topic payload) ≡ none
  unfolding inspect
  inspect-other_topic topic h e =
      rw (read-publish_packet topic payload h) (rw (first_byte topic payload, e) refl)
