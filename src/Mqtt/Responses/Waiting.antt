-- ===== src/Mqtt/Responses/Waiting.antt =====
-- The receive loop of `runCommand`: what it skips, what it answers, and that it ends.
use Prim.Native.Nat.{bit_and}
use xmdm.Common.{
  ℕ, zero, suc, ◌<◌, ◌≤◌, ◌^◌, ◌≡◌, ◌≢◌, refl, ◌∙◌, List, [], ◌∷◌, ◌++◌, length, arith,
  length-append, Option, none, some, String, Option-cases, inl, inr, All,
}
use xmdm.Mqtt.{Wire-cases, Bytes, encode_string, read_packet}
use xmdm.Mqtt.Framing.{read_packet-frame, read_packet-shrinks}
use xmdm.Mqtt.Packets.{frame, publish_packet}
use xmdm.Mqtt.Responses.{Response, failed, stuck, inspect, await, control_response_topic}
use xmdm.Mqtt.Responses.Opening.{answer, inspect-response}

-- What the broker may send before the answer: packets of another type.
abbrev pub Unrelated : ℕ × Bytes → Type 0
Unrelated p = (bit_and p.0 0xF0 ≢ 0x30) × (length p.1 < 128 ^ 4)

abbrev pub stream : List (ℕ × Bytes) → Bytes → Bytes
stream [] rest = rest
stream (p ∷ ps) rest = frame p.0 p.1 ++ stream ps rest

pub length-stream : (ps : List (ℕ × Bytes)) (rest : Bytes) → length ps ≤ length (stream ps rest)
unfolding frame
length-stream [] rest = omega arith
length-stream (p ∷ ps) rest =
    omega (arith, length-append (frame p.0 p.1) (stream ps rest), length-stream ps rest)

module _ (parse : Bytes → Option (List Response)) (tolerated : List String) where
  await-packet :
      (rounds : ℕ) (header : ℕ) (body rest : Bytes)
      → length body < 128 ^ 4
      → await parse (suc rounds) tolerated (frame header body ++ rest)
        ≡ elim (inspect parse tolerated (frame header body)) [
          | some outcome ↦ outcome
          | none ↦ await parse rounds tolerated rest
        ]
  unfolding await
  await-packet rounds header body rest h = rw (read_packet-frame header body rest h, await) refl

  -- Packets of other types are skipped.
  inspect-other_type :
      (header : ℕ) (body : Bytes)
      → bit_and header 0xF0 ≢ 0x30
      → inspect parse tolerated (frame header body) ≡ none
  unfolding inspect frame
  inspect-other_type header body h = ground arith

  pub await-answer :
      (noise : List (ℕ × Bytes)) (payload rest : Bytes) (rounds : ℕ)
      → All Unrelated noise
      → length (encode_string control_response_topic ++ payload) < 128 ^ 4
      → length noise < rounds
      → await parse rounds tolerated
          (stream noise (publish_packet control_response_topic payload ++ rest))
        ≡ answer parse tolerated payload
  await-answer noise payload rest zero a h g = absurd (omega arith)
  await-answer [] payload rest (suc rounds) a h g =
      unfold publish_packet in
      (await-packet rounds 0x30 (encode_string control_response_topic ++ payload) rest h
        ∙ rw (inspect-response parse tolerated payload) refl)
  await-answer (p ∷ ps) payload rest (suc rounds) a h g =
      await-packet rounds p.0 p.1 _ a.0.1
      ∙ (rw (inspect-other_type p.0 p.1 a.0.0)
          (await-answer ps payload rest rounds a.1 h (omega arith)))

  inspect-ne-stuck : (packet : Bytes) → inspect parse tolerated packet ≢ some (failed stuck)
  unfolding inspect
  inspect-ne-stuck packet h = ground arith

  -- Every round takes a byte at least, so as many rounds as bytes, and one, are enough.
  pub await-ne-stuck :
      (rounds : ℕ) (incoming : Bytes)
      → length incoming < rounds
      → await parse rounds tolerated incoming ≢ failed stuck
  unfolding await
  await-ne-stuck zero incoming g h = absurd (omega arith)
  await-ne-stuck (suc rounds) incoming g h = elim (Wire-cases (read_packet incoming)) [
    | inl (e, broken) ↦ cc (rw (broken, await) at h)
    | inr (p, read) ↦ elim (Option-cases (inspect parse tolerated p.0)) [
      | inl skipped ↦
          await-ne-stuck rounds p.1 (omega (arith, read_packet-shrinks incoming read))
            (ground arith)
      | inr (o, seen) ↦ inspect-ne-stuck p.0 (ground arith)
    ]
  ]
